-- ===== src/Events/Descriptors/Counts.antt =====
-- daemon/events.c: `num_active_fds` and the events of a queue.
use in5020_distribuerte_syst.Prelude.{
  ℕ, zero, suc, ◌+◌, ◌<◌, ◌≤◌, length, get_elem?, set, ◌≡◌, refl, ap, ◌∙◌, subst, ◌≢◌, Bool, true,
  false, ◌&&◌, Option, none, some, List, [], ◌∷◌, arith, ltb, leb, ◌==◌, if◌then◌else◌, ◌>>=◌,
  is_none, ℤ, pos, negsuc,
}
use in5020_distribuerte_syst.Events.Descriptors.{
  FdEvent, FdQueue, Masks, Descriptors, write_mask, matches, change_first, behind_last, fill_gap,
  take_out, set_active, detach_in, deactivate_in, discount_in, count_in, activate_in, again, each,
  for_each, detach_fd, deactivate_fd, activate_fd,
}

abbrev pub bit_of : Bool → ℕ
bit_of true = 1
bit_of false = 0

-- The events of a queue that are active.
unfoldable pub count : List FdEvent → ℕ
count [] = 0
count (e ∷ r) = bit_of e.active + count r

unfoldable pub IsCounted : FdQueue → Type 0
IsCounted q = q.num_active_fds ≡ count q.events

unfoldable pub AllCounted : List FdQueue → Type 0
AllCounted [] = Unit
AllCounted (q ∷ qs) = IsCounted q × AllCounted qs

-- The events that are left with the flag of the one that was found count to `n`.
pub IsRecount : ℕ → Option (Bool × List FdEvent) → Type 0
unfolding count
IsRecount n none = Unit
IsRecount n (some x) = count x.1 + bit_of x.0 ≡ n

IsRecount-behind :
    (e : FdEvent) (n : ℕ) (o : Option (Bool × List FdEvent))
    → IsRecount n o
    → IsRecount (bit_of e.active + n) (o >>= λ x. some (x.0, e ∷ x.1))
unfolding IsRecount count
IsRecount-behind e n none h = tt
IsRecount-behind e n (some x) h = omega (arith, h)

IsRecount-if :
    (b : Bool) (n : ℕ) (m o : Option (Bool × List FdEvent))
    → IsRecount n m
    → IsRecount n o
    → IsRecount n (if b then m else o)
IsRecount-if true n m o h k = h
IsRecount-if false n m o h k = k

count-behind_last :
    (x : FdEvent) (r : List FdEvent) → count (behind_last x r) ≡ bit_of x.active + count r
unfolding count
count-behind_last x [] = refl
count-behind_last x (z ∷ r) = omega arith

count-fill_gap : (r : List FdEvent) → count (fill_gap r) ≡ count r
unfolding count fill_gap
count-fill_gap [] = refl
count-fill_gap (x ∷ []) = refl
count-fill_gap (x ∷ y ∷ r) =
    count-behind_last x (fill_gap (y ∷ r)) ∙ ap (λ n. bit_of x.active + n) (count-fill_gap (y ∷ r))

take_out-IsRecount : (fd t : ℕ) (es : List FdEvent) → IsRecount (count es) (take_out fd t es)
unfolding take_out count IsRecount
take_out-IsRecount fd t [] = tt
take_out-IsRecount fd t (e ∷ r) =
    IsRecount-if (matches fd t e) _ (some (e.active, fill_gap r))
      (take_out fd t r >>= λ x. some (x.0, e ∷ x.1)) (omega (arith, count-fill_gap r))
      (IsRecount-behind e (count r) (take_out fd t r) (take_out-IsRecount fd t r))

pub change_first-IsRecount :
    (f : FdEvent → FdEvent) (b : Bool)
    → ((e : FdEvent) → (f e).active ≡ b)
    → (fd t : ℕ) (es : List FdEvent) → IsRecount (count es + bit_of b) (change_first f fd t es)
unfolding change_first count IsRecount
change_first-IsRecount f b g fd t [] = tt
change_first-IsRecount f b g fd t (e ∷ r) =
    IsRecount-if (matches fd t e) _ (some (e.active, f e ∷ r))
      (change_first f fd t r >>= λ x. some (x.0, e ∷ x.1)) (rw (g e) (omega arith))
      (subst (λ n. IsRecount n (change_first f fd t r >>= λ x. some (x.0, e ∷ x.1))) (omega arith)
        (IsRecount-behind e (count r + bit_of b) (change_first f fd t r)
          (change_first-IsRecount f b g fd t r)))

-- A step that finds no event, or leaves a queue whose count is right.
unfoldable pub IsCountedStep : Option FdQueue → Type 0
unfolding IsCounted
IsCountedStep none = Unit
IsCountedStep (some q) = IsCounted q

discount_in-IsCountedStep :
    (q : FdQueue) (o : Option (Bool × List FdEvent))
    → IsCounted q
    → IsRecount (count q.events + 0) o
    → IsCountedStep (o >>= λ x. some (discount_in q x))
unfolding IsCountedStep IsRecount IsCounted
discount_in-IsCountedStep q none c h = tt
discount_in-IsCountedStep q (some (true, es)) c h = omega (arith, c, h)
discount_in-IsCountedStep q (some (false, es)) c h = omega (arith, c, h)

pub count_in-IsCountedStep :
    (q : FdQueue) (o : Option (Bool × List FdEvent))
    → IsCounted q
    → IsRecount (count q.events + 1) o
    → IsCountedStep (o >>= λ x. some (count_in q x))
unfolding IsCountedStep IsRecount IsCounted
count_in-IsCountedStep q none c h = tt
count_in-IsCountedStep q (some (true, es)) c h = omega (arith, c, h)
count_in-IsCountedStep q (some (false, es)) c h = omega (arith, c, h)

pub get_elem?-IsCounted :
    (qs : List FdQueue) (p : ℕ)
    → p < length qs
    → AllCounted qs
    → (q : FdQueue) × (get_elem? qs p ≡ some q) × IsCounted q
unfolding AllCounted
get_elem?-IsCounted [] p l h = absurd (omega arith)
get_elem?-IsCounted (q ∷ qs) zero l (c, h) = (q, refl, c)
get_elem?-IsCounted (q ∷ qs) (suc p) l (c, h) = get_elem?-IsCounted qs p (omega arith) h

pub set-AllCounted :
    (qs : List FdQueue) (p : ℕ) (q : FdQueue)
    → IsCounted q
    → AllCounted qs
    → AllCounted (set qs p q)
unfolding AllCounted
set-AllCounted [] p q c h = h
set-AllCounted (x ∷ qs) zero q c (d, h) = (c, h)
set-AllCounted (x ∷ qs) (suc p) q c (d, h) = (d, set-AllCounted qs p q c h)

length-set : (qs : List FdQueue) (i : ℕ) (q : FdQueue) → length (set qs i q) ≡ length qs
length-set [] i q = refl
length-set (x ∷ qs) zero q = refl
length-set (x ∷ qs) (suc i) q = ap suc (length-set qs i q)

-- The loop returns, with every count right.
IsCountedLoop : Option (Bool × List FdQueue × Masks) → Type 0
unfolding AllCounted
IsCountedLoop none = ⊥
IsCountedLoop (some x) = AllCounted x.1

again-AllCounted :
    (i : ℕ) (o : Option FdQueue) (found : Bool) (qs : List FdQueue) (m : Masks)
    → IsCountedStep o
    → AllCounted qs
    → AllCounted (again i o (found, qs, m)).1
unfolding IsCountedStep
again-AllCounted i none found qs m s h = h
again-AllCounted i (some q') found qs m s h = set-AllCounted qs i q' s h

length-again :
    (i : ℕ) (o : Option FdQueue) (found : Bool) (qs : List FdQueue) (m : Masks)
    → length (again i o (found, qs, m)).1 ≡ length qs
length-again i none found qs m = refl
length-again i (some q') found qs m = length-set qs i q'

module _ (step : FdQueue → Option FdQueue) (hit : ℕ → Masks → Option Masks)
    (counts : (q : FdQueue) → IsCounted q → IsCountedStep (step q))
    (hits : (i : ℕ) (m : Masks) → (m' : Masks) × (hit i m ≡ some m')) where
  written :
      (o : Option FdQueue) (j : ℕ) (m : Masks)
      → (m' : Masks) × ((if is_none o then some m else hit j m) ≡ some m')
  written none j m = (m, refl)
  written (some q) j m = hits j m

  -- Where there is a queue for each priority left.
  each-IsCountedLoop :
      (n i : ℕ) (found : Bool) (qs : List FdQueue) (m : Masks)
      → i + n ≤ length qs
      → AllCounted qs
      → IsCountedLoop (each step hit n i (found, qs, m))
  unfolding each IsCountedLoop
  each-IsCountedLoop zero i found qs m l h = h
  each-IsCountedLoop (suc n) i found qs m l h =
      let (q, at, c) = get_elem?-IsCounted qs i (omega arith) h in
      let (m', e) = written (step q) i m in
      let x = again i (step q) (found, qs, m') in
      rw (at, e)
        (each-IsCountedLoop n (suc i) x.0 x.1 x.2
          (omega (arith, length-again i (step q) found qs m'))
          (again-AllCounted i (step q) found qs m' (counts q c) h))

-- The operation returns, with every count right.
unfoldable pub Returns : Option (ℤ × Descriptors) → Type 0
unfolding AllCounted
Returns none = ⊥
Returns (some x) = AllCounted (x.1).fd_queue

pub Returns-if :
    (b : Bool) (m o : Option (ℤ × Descriptors))
    → (b ≡ true → Returns m)
    → (b ≡ false → Returns o)
    → Returns (if b then m else o)
Returns-if true m o h k = h refl
Returns-if false m o h k = k refl

IsCountedLoop-Returns :
    (s : Descriptors) (l : Option (Bool × List FdQueue × Masks))
    → IsCountedLoop l
    → Returns (
        l >>= λ x.
        some (if x.0 then pos 0 else negsuc 0, record s { fd_queue = x.1; fd_mask = x.2 }))
unfolding IsCountedLoop Returns
IsCountedLoop-Returns s none h = h
IsCountedLoop-Returns s (some (found, qs, m)) h = h

pub write_mask-some :
    (b : Bool) (fd t : ℕ) (m : Masks) → t < 3 → (m' : Masks) × (write_mask b fd t m ≡ some m')
write_mask-some b fd t m h =
    ((λ t' fd'. if (t' == t) && (fd' == fd) then b else m t' fd'), ground arith)

for_each-Returns :
    (step : FdQueue → Option FdQueue) (hit : ℕ → Masks → Option Masks) (t : ℕ) (s : Descriptors)
    → ((q : FdQueue) → IsCounted q → IsCountedStep (step q))
    → (t < 3 → (i : ℕ) (m : Masks) → (m' : Masks) × (hit i m ≡ some m'))
    → ¬ (t ≡ 3)
    → length s.fd_queue ≡ 3
    → AllCounted s.fd_queue
    → Returns (for_each step hit (pos t) s)
unfolding for_each Returns
for_each-Returns step hit t s counts hits n three h =
    Returns-if (ltb 3 t) (some (negsuc 0, s))
      (each step hit 3 0 (false, s.fd_queue, s.fd_mask) >>= λ x.
        some (if x.0 then pos 0 else negsuc 0, record s { fd_queue = x.1; fd_mask = x.2 }))
      (λ _. h)
      (λ e. IsCountedLoop-Returns s (each step hit 3 0 (false, s.fd_queue, s.fd_mask)) (
        each-IsCountedLoop step hit counts (hits (ground arith)) 3 0 false s.fd_queue s.fd_mask
          (omega (arith, three)) h))

-- With any type of descriptor but 3, where there are three queues: E_detach_fd, E_deactivate_fd and
-- E_activate_fd index neither Fd_queue nor Fd_mask outside their three places, and where
-- num_active_fds of each queue is the number of its active events they keep that.
pub change-Returns :
    (fd : ℕ) (fd_type : ℤ) (s : Descriptors)
    → fd_type ≢ pos 3
    → length s.fd_queue ≡ 3
    → AllCounted s.fd_queue
    → Returns (detach_fd fd fd_type s)
      × Returns (deactivate_fd fd fd_type s)
      × Returns (activate_fd fd fd_type s)
unfolding detach_fd deactivate_fd activate_fd Returns
change-Returns fd (negsuc n) s ne three h = (h, h, h)
change-Returns fd (pos t) s ne three h = (
  for_each-Returns (detach_in fd t) (λ i. write_mask false fd t) t s
      (λ q c. discount_in-IsCountedStep q (take_out fd t q.events) c (
        subst (λ n. IsRecount n (take_out fd t q.events)) (omega arith)
          (take_out-IsRecount fd t q.events)))
      (λ l i m. write_mask-some false fd t m l) (λ e. ne (ap pos e)) three h,
  for_each-Returns (deactivate_in fd t) (λ i. write_mask false fd t) t s
      (λ q c.
        discount_in-IsCountedStep q (change_first (set_active false) fd t q.events) c
          (change_first-IsRecount (set_active false) false (λ e. refl) fd t q.events))
      (λ l i m. write_mask-some false fd t m l) (λ e. ne (ap pos e)) three h,
  for_each-Returns (activate_in fd t)
      (λ i m. if leb s.active_priority i then write_mask true fd t m else some m) t s
      (λ q c.
        count_in-IsCountedStep q (change_first (set_active true) fd t q.events) c
          (change_first-IsRecount (set_active true) true (λ e. refl) fd t q.events))
      (λ l i m. maybe_set (leb s.active_priority i) m l) (λ e. ne (ap pos e)) three h,
)
  where
    maybe_set :
        (b : Bool) (m : Masks)
        → t < 3
        → (m' : Masks) × ((if b then write_mask true fd t m else some m) ≡ some m')
    maybe_set true m l = write_mask-some true fd t m l
    maybe_set false m l = (m, refl)
