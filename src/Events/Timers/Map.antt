-- ===== src/Events/Timers/Map.antt =====
-- The timers as a map from callbacks to times: at most one event waits for each callback.
use in5020_distribuerte_syst.Prelude.{
  ◌≡◌, refl, ap, subst, ◌∙◌, ◌≢◌, ◌↔◌, inl, inr, Bool, true, false, arith, if◌then◌else◌,
  Bool-cases, List, [], ◌∷◌, Option, none, some, ℤ, pos, negsuc,
}
use in5020_distribuerte_syst.Events.Time.{SpTime, add_time}
use in5020_distribuerte_syst.Events.Timers.{
  Callback, TimeEvent, same, is_before, scan, place, insert_event, queue, dequeue,
}

-- The time at which a callback is due.
unfoldable pub pending : Callback → List TimeEvent → Option SpTime
pending c [] = none
pending c (x ∷ r) = if same x.call c then some x.t else pending c r

abbrev pub Absent : Callback → List TimeEvent → Type 0
Absent c [] = Unit
Absent c (x ∷ r) = (same x.call c ≡ false) × Absent c r

-- No two events have the same callback.
abbrev pub IsUnique : List TimeEvent → Type 0
IsUnique [] = Unit
IsUnique (x ∷ r) = Absent x.call r × IsUnique r

unfoldable pub remove : Callback → List TimeEvent → List TimeEvent
remove c [] = []
remove c (x ∷ r) = if same x.call c then r else x ∷ remove c r

-- Before the first event that is later.
unfoldable pub insert_in_order : TimeEvent → List TimeEvent → List TimeEvent
insert_in_order e [] = e ∷ []
insert_in_order e (x ∷ r) = if is_before e.t x.t then e ∷ x ∷ r else x ∷ insert_in_order e r

pub same-eq : (a b : Callback) → same a b ≡ true → a ≡ b
same-eq a b h = ground arith

pub same_refl : (a : Callback) → same a a ≡ true
same_refl a = ground arith

pub Absent-eq : (a b : Callback) (q : List TimeEvent) → same a b ≡ true → Absent a q → Absent b q
Absent-eq a b q h n = subst (λ c. Absent c q) (same-eq a b h) n

scan_done : (e : TimeEvent) (d : Bool) (q : List TimeEvent) → Absent e.call q → scan e true d q ≡ q
unfolding scan
scan_done e d [] n = refl
scan_done e d (x ∷ r) n = ground (arith, scan_done e d r n.1)

scan_place :
    (e : TimeEvent) (d : Bool) (q : List TimeEvent)
    → Absent e.call q
    → scan e false d q ≡ insert_in_order e q
unfolding scan insert_in_order
scan_place e d [] n = refl
scan_place e d (x ∷ r) n = ground (arith, scan_place e d r n.1, scan_done e d r n.1)

-- An event that has the callback of the head of a unique queue takes its place alone.
pub Absent-same :
    (x : TimeEvent) (r : List TimeEvent) (c : Callback)
    → IsUnique (x ∷ r)
    → same x.call c ≡ true
    → Absent c r
Absent-same x r c u h = Absent-eq x.call c r h u.0

scan_drop :
    (e : TimeEvent) (q : List TimeEvent) → IsUnique q → scan e true false q ≡ remove e.call q
unfolding scan remove
scan_drop e [] u = refl
scan_drop e (x ∷ r) u = elim (Bool-cases (same x.call e.call)) [
  | inl h ↦ rw h (scan_done e true r (Absent-same x r e.call u h))
  | inr h ↦ rw h (ap (λ l. x ∷ l) (scan_drop e r u.1))
]

scan_both :
    (e : TimeEvent) (q : List TimeEvent)
    → IsUnique q
    → scan e false false q ≡ insert_in_order e (remove e.call q)
unfolding scan remove insert_in_order
scan_both e [] u = refl
scan_both e (x ∷ r) u = elim (Bool-cases (same x.call e.call)) [
  | inl h ↦ rw h (scan_place e true r (Absent-same x r e.call u h))
  | inr h ↦ rw h (ground (arith, scan_both e r u.1, scan_drop e r u.1))
]

place_lem :
    (e : TimeEvent) (q : List TimeEvent) → Absent e.call q → place e true q ≡ insert_in_order e q
unfolding place insert_in_order
place_lem e [] n = refl
place_lem e (x ∷ r) n = ground (arith, scan_done e true (x ∷ r) n, scan_place e true r n.1)

insert_event_lem :
    (e : TimeEvent) (q : List TimeEvent)
    → IsUnique q
    → insert_event e q ≡ insert_in_order e (remove e.call q)
unfolding insert_event remove insert_in_order
insert_event_lem e [] u = refl
insert_event_lem e (x ∷ r) u = elim (Bool-cases (same x.call e.call)) [
  | inl h ↦ rw h (place_lem e r (Absent-same x r e.call u h))
  | inr h ↦ rw h (ground (arith, scan_both e r u.1, scan_drop e r u.1, scan_drop e (x ∷ r) u, h))
]

-- On a queue with one event for each callback, `E_queue` takes the event of the same callback out
-- and puts the new one before the first later event.
pub queue_refines :
    (now : SpTime) (c : Callback) (delta : SpTime) (q : List TimeEvent)
    → IsUnique q
    → queue now c delta q
      ≡ insert_in_order (record { t = add_time now delta; call = c }) (remove c q)
unfolding queue
queue_refines now c delta q u = insert_event_lem _ q u

pub dequeue_refines : (c : Callback) (q : List TimeEvent) → (dequeue c q).1 ≡ remove c q
unfolding dequeue remove
dequeue_refines c [] = refl
dequeue_refines c (x ∷ r) = ground (arith, dequeue_refines c r)

remove-Absent : (a c : Callback) (q : List TimeEvent) → Absent a q → Absent a (remove c q)
unfolding remove
remove-Absent a c [] n = tt
remove-Absent a c (x ∷ r) n = ground (arith, remove-Absent a c r n.1)

remove-Absent_self : (c : Callback) (q : List TimeEvent) → IsUnique q → Absent c (remove c q)
unfolding remove
remove-Absent_self c [] u = tt
remove-Absent_self c (x ∷ r) u = elim (Bool-cases (same x.call c)) [
  | inl h ↦ rw h (Absent-same x r c u h)
  | inr h ↦ rw h (h, remove-Absent_self c r u.1)
]

remove-IsUnique : (c : Callback) (q : List TimeEvent) → IsUnique q → IsUnique (remove c q)
unfolding remove
remove-IsUnique c [] u = tt
remove-IsUnique c (x ∷ r) u = ground (arith, remove-IsUnique c r u.1, remove-Absent x.call c r u.0)

insert-Absent :
    (a : Callback) (e : TimeEvent) (q : List TimeEvent)
    → same e.call a ≡ false
    → Absent a q
    → Absent a (insert_in_order e q)
unfolding insert_in_order
insert-Absent a e [] h n = (h, tt)
insert-Absent a e (x ∷ r) h n = ground (arith, insert-Absent a e r h n.1)

same_comm : (a b : Callback) → same a b ≡ same b a
same_comm a b = ground arith

insert-IsUnique :
    (e : TimeEvent) (q : List TimeEvent)
    → IsUnique q
    → Absent e.call q
    → IsUnique (insert_in_order e q)
unfolding insert_in_order
insert-IsUnique e [] u n = (tt, tt)
insert-IsUnique e (x ∷ r) u n = elim (Bool-cases (is_before e.t x.t)) [
  | inl h ↦ rw h (n, u)
  | inr h ↦
      rw h
        (insert-Absent x.call e r (same_comm e.call x.call ∙ n.0) u.0, insert-IsUnique e r u.1 n.1)
]

-- On a queue with at most one event for each callback, `E_queue` leaves at most one for each.
pub queue-IsUnique :
    (now : SpTime) (c : Callback) (delta : SpTime) (q : List TimeEvent)
    → IsUnique q
    → IsUnique (queue now c delta q)
queue-IsUnique now c delta q u =
    rw (queue_refines now c delta q u)
      (insert-IsUnique _ (remove c q) (remove-IsUnique c q u) (remove-Absent_self c q u))

pub dequeue-IsUnique : (c : Callback) (q : List TimeEvent) → IsUnique q → IsUnique (dequeue c q).1
dequeue-IsUnique c q u = rw (dequeue_refines c q) (remove-IsUnique c q u)

pub pending-Absent : (c : Callback) (q : List TimeEvent) → Absent c q → pending c q ≡ none
unfolding pending
pending-Absent c [] n = refl
pending-Absent c (x ∷ r) n = rw n.0 (pending-Absent c r n.1)

pending-insert :
    (c : Callback) (e : TimeEvent) (q : List TimeEvent)
    → Absent e.call q
    → pending c (insert_in_order e q) ≡ (if same e.call c then some e.t else pending c q)
unfolding pending insert_in_order
pending-insert c e [] n = refl
pending-insert c e (x ∷ r) n = ground (arith, pending-insert c e r n.1)

pending-remove :
    (c d : Callback) (q : List TimeEvent)
    → IsUnique q
    → pending c (remove d q) ≡ (if same d c then none else pending c q)
unfolding pending remove
pending-remove c d [] u = ground arith
pending-remove c d (x ∷ r) u =
    ground (arith, pending-remove c d r u.1, pending-Absent c r, Absent-same x r c u)

-- On a queue with one event for each callback, `E_queue` makes the callback due at the sum of the
-- clock and the delay, in place of any earlier date, and leaves every other callback as it was.
pub pending-queue :
    (now : SpTime) (c d : Callback) (delta : SpTime) (q : List TimeEvent)
    → IsUnique q
    → pending d (queue now c delta q)
      ≡ (if same c d then some (add_time now delta) else pending d q)
pending-queue now c d delta q u =
    rw (queue_refines now c delta q u)
      (pending-insert d _ (remove c q) (remove-Absent_self c q u) ∙ other)
  where
    other :
        (if same c d then some (add_time now delta) else pending d (remove c q))
        ≡ (if same c d then some (add_time now delta) else pending d q)
    other = ground (arith, pending-remove d c q u)

found : Option SpTime → ℤ
found none = negsuc 0
found (some t) = pos 0

dequeue-found : (c : Callback) (q : List TimeEvent) → (dequeue c q).0 ≡ found (pending c q)
unfolding dequeue pending found
dequeue-found c [] = refl
dequeue-found c (x ∷ r) = ground (arith, dequeue-found c r)

-- On a queue with one event for each callback, `E_dequeue` cancels the callback and no other, and
-- returns 0 or -1 as it was due or not.
pub pending-dequeue :
    (c d : Callback) (q : List TimeEvent)
    → IsUnique q
    → (pending d (dequeue c q).1 ≡ (if same c d then none else pending d q))
      × (((dequeue c q).0 ≡ negsuc 0) ↔ (pending c q ≡ none))
      × (((dequeue c q).0 ≡ pos 0) ↔ (pending c q ≢ none))
unfolding found
pending-dequeue c d q u = (
  rw (dequeue_refines c q) (pending-remove d c q u),
  (ground (arith, dequeue-found c q), ground (arith, dequeue-found c q)),
  (ground (arith, dequeue-found c q), ground (arith, dequeue-found c q)),
)
