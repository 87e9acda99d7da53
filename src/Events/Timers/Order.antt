-- ===== src/Events/Timers/Order.antt =====
-- The timers are called in the order of their times, and none late.
use in5020_distribuerte_syst.Prelude.{
  ◌≡◌, refl, ap, sym, subst, ◌∙◌, ◌⊎◌, inl, inr, true, false, arith, Bool-cases, List, [], ◌∷◌,
  ◌≤ℤ◌, ◌<ℤ◌, pos_part, neg_part, eq_of_parts, ◌-ℤ◌,
}
use in5020_distribuerte_syst.Events.Time.{SpTime, compare_time}
use in5020_distribuerte_syst.Events.Time.Arithmetic.{micros, micros-sub_time}
use in5020_distribuerte_syst.Events.Timers.{
  Callback, TimeEvent, same, is_before, queue, dequeue, Turn, idle, fire, wait, next_turn,
}
use in5020_distribuerte_syst.Events.Timers.Map.{
  remove, insert_in_order, IsUnique, queue_refines, dequeue_refines,
}

-- `a` is not later than `b`, as `E_compare_time` orders them.
abbrev pub AtMost : SpTime → SpTime → Type 0
AtMost a b = is_before b a ≡ false

-- The order of `E_compare_time`, spelled out.
abbrev Lex : SpTime → SpTime → Type 0
Lex a b = (a.sec <ℤ b.sec) ⊎ ((a.sec ≡ b.sec) × (a.usec ≤ℤ b.usec))

AtMost-Lex : (a b : SpTime) → AtMost a b → Lex a b
unfolding compare_time
AtMost-Lex a b h = ground (arith, eq_of_parts a.sec b.sec)

Lex-AtMost : (a b : SpTime) → Lex a b → AtMost a b
unfolding compare_time
Lex-AtMost a b (inl h) = ground arith
Lex-AtMost a b (inr (h, k)) = rw (← ap pos_part h, ← ap neg_part h) (ground arith)

Lex-trans : (a b c : SpTime) → Lex a b → Lex b c → Lex a c
Lex-trans a b c (inl h) (inl k) = inl (omega arith)
Lex-trans a b c (inl h) (inr (e, k)) = inl (subst (λ s. a.sec <ℤ s) e h)
Lex-trans a b c (inr (e, h)) (inl k) = inl (subst (λ s. s <ℤ c.sec) (sym e) k)
Lex-trans a b c (inr (e, h)) (inr (f, k)) = inr (e ∙ f, omega arith)

AtMost-trans : (a b c : SpTime) → AtMost a b → AtMost b c → AtMost a c
AtMost-trans a b c h k = Lex-AtMost a c (Lex-trans a b c (AtMost-Lex a b h) (AtMost-Lex b c k))

AtMost-is_before : (a b : SpTime) → is_before a b ≡ true → AtMost a b
unfolding compare_time
AtMost-is_before a b h = ground arith

-- `t` is not later than any event.
abbrev pub AllAfter : SpTime → List TimeEvent → Type 0
AllAfter t [] = Unit
AllAfter t (x ∷ r) = AtMost t x.t × AllAfter t r

abbrev pub IsSorted : List TimeEvent → Type 0
IsSorted [] = Unit
IsSorted (x ∷ r) = AllAfter x.t r × IsSorted r

AllAfter-trans : (a b : SpTime) (q : List TimeEvent) → AtMost a b → AllAfter b q → AllAfter a q
AllAfter-trans a b [] h k = tt
AllAfter-trans a b (x ∷ r) h k = (AtMost-trans a b x.t h k.0, AllAfter-trans a b r h k.1)

insert-AllAfter :
    (t : SpTime) (e : TimeEvent) (q : List TimeEvent)
    → AtMost t e.t
    → AllAfter t q
    → AllAfter t (insert_in_order e q)
unfolding insert_in_order
insert-AllAfter t e [] h n = (h, tt)
insert-AllAfter t e (x ∷ r) h n = elim (Bool-cases (is_before e.t x.t)) [
  | inl p ↦ rw p (h, n)
  | inr p ↦ rw p (n.0, insert-AllAfter t e r h n.1)
]

insert-IsSorted : (e : TimeEvent) (q : List TimeEvent) → IsSorted q → IsSorted (insert_in_order e q)
unfolding insert_in_order
insert-IsSorted e [] s = (tt, tt)
insert-IsSorted e (x ∷ r) s = elim (Bool-cases (is_before e.t x.t)) [
  | inl p ↦
      rw p
        ((AtMost-is_before e.t x.t p, AllAfter-trans e.t x.t r (AtMost-is_before e.t x.t p) s.0), s)
  | inr p ↦ rw p (insert-AllAfter x.t e r p s.0, insert-IsSorted e r s.1)
]

remove-AllAfter :
    (t : SpTime) (c : Callback) (q : List TimeEvent) → AllAfter t q → AllAfter t (remove c q)
unfolding remove
remove-AllAfter t c [] n = tt
remove-AllAfter t c (x ∷ r) n = elim (Bool-cases (same x.call c)) [
  | inl p ↦ rw p (n.1)
  | inr p ↦ rw p (n.0, remove-AllAfter t c r n.1)
]

remove-IsSorted : (c : Callback) (q : List TimeEvent) → IsSorted q → IsSorted (remove c q)
unfolding remove
remove-IsSorted c [] s = tt
remove-IsSorted c (x ∷ r) s = elim (Bool-cases (same x.call c)) [
  | inl p ↦ rw p (s.1)
  | inr p ↦ rw p (remove-AllAfter x.t c r s.0, remove-IsSorted c r s.1)
]

-- On a queue with one event for each callback, in the order of time, `E_queue` and `E_dequeue`
-- keep that order.
pub queue-dequeue-IsSorted :
    (now : SpTime) (c : Callback) (delta : SpTime) (q : List TimeEvent)
    → IsUnique q
    → IsSorted q
    → IsSorted (queue now c delta q) × IsSorted (dequeue c q).1
queue-dequeue-IsSorted now c delta q u s = (
  rw (queue_refines now c delta q u) (insert-IsSorted _ (remove c q) (remove-IsSorted c q s)),
  rw (dequeue_refines c q) (remove-IsSorted c q s),
)

-- Every event is later than `now`.
abbrev pub NoneDue : SpTime → List TimeEvent → Type 0
NoneDue now [] = Unit
NoneDue now (x ∷ r) = (is_before now x.t ≡ true) × NoneDue now r

AllAfter-NoneDue :
    (now t : SpTime) (q : List TimeEvent) → is_before now t ≡ true → AllAfter t q → NoneDue now q
AllAfter-NoneDue now t [] h n = tt
AllAfter-NoneDue now t (x ∷ r) h n = (
  ground (arith, Bool-cases (is_before now x.t), AtMost-trans t x.t now n.0, h),
  AllAfter-NoneDue now t r h n.1,
)

-- What a turn does rightly at the reading `now`.
abbrev pub IsFair : SpTime → List TimeEvent → Turn → Type 0
IsFair now q idle = q ≡ []
IsFair now q (fire e rest) = (q ≡ e ∷ rest) × AtMost e.t now × AllAfter e.t rest
IsFair now q (wait d) =
    NoneDue now q
    × ((x : TimeEvent) × (r : List TimeEvent) × (q ≡ x ∷ r) × (micros d ≡ micros x.t -ℤ micros now))

-- Once the loop handles timers, on a list in order: an event is called only when it is due and no
-- waiting event is earlier, and where the loop stops to wait no event is due and the time that it
-- waits is the time left to the first event.
pub next_turn-IsFair :
    (now : SpTime) (q : List TimeEvent) → IsSorted q → IsFair now q (next_turn false now q)
unfolding next_turn
next_turn-IsFair now [] s = refl
next_turn-IsFair now (x ∷ r) s = elim (Bool-cases (is_before now x.t)) [
  | inl p ↦ rw p ((p, AllAfter-NoneDue now x.t r p s.0), (x, r, refl, micros-sub_time x.t now))
  | inr p ↦ rw p (refl, p, s.0)
]
