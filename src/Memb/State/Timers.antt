-- ===== src/Memb/State/Timers.antt =====
-- Which callbacks wait.
use in5020_distribuerte_syst.Prelude.{
  List, ap, ◌≡◌, refl, Bool, true, false, not, ◌&&◌, ◌||◌, ◌∷◌, inl, inr, Bool-cases, none, arith,
}
use in5020_distribuerte_syst.Events.Time.{SpTime}
use in5020_distribuerte_syst.Events.Timers.{Callback, TimeEvent, same, queue, dequeue}
use in5020_distribuerte_syst.Events.Timers.Map.{
  pending, pending-Absent, Absent-same, same-eq, same_refl, IsUnique, pending-queue,
  pending-dequeue, queue-IsUnique, dequeue-IsUnique,
}

-- At most one event waits for each callback, and only for callbacks that pass the test.
pub record Only (test : Callback → Bool) (q : List TimeEvent) : Type 0 where
  pub unique : IsUnique q
  pub none_else : (c : Callback) → test c ≡ false → pending c q ≡ none

pub weaken-Only :
    (test test' : Callback → Bool) (q : List TimeEvent)
    → ((c : Callback) → test' c ≡ false → test c ≡ false)
    → Only test q
    → Only test' q
weaken-Only test test' q h o = record {
  unique = o.unique;
  none_else = λ c f. o.none_else c (h c f);
}

or-true : (b : Bool) → (b || true) ≡ true
or-true b = ground arith

pub queue-Only :
    (test : Callback → Bool) (now : SpTime) (k : Callback) (delta : SpTime) (q : List TimeEvent)
    → test k ≡ true
    → Only test q
    → Only test (queue now k delta q)
queue-Only test now k delta q h o = record {
  unique = queue-IsUnique now k delta q o.unique;
  none_else = λ c f. rw (pending-queue now k c delta q o.unique) (elim (Bool-cases (same k c)) [
    | inl e ↦ cc (ap test (same-eq k c e))
    | inr e ↦ rw e (o.none_else c f)
  ]);
}

pub queue-Only_or :
    (test : Callback → Bool) (now : SpTime) (k : Callback) (delta : SpTime) (q : List TimeEvent)
    → Only test q
    → Only (λ c. test c || same k c) (queue now k delta q)
queue-Only_or test now k delta q o =
    queue-Only _ now k delta q (rw (same_refl k) (or-true (test k)))
      (weaken-Only test _ q (λ c h. ground arith) o)

pub dequeue-Only :
    (test : Callback → Bool) (k : Callback) (q : List TimeEvent)
    → Only test q
    → Only (λ c. test c && not (same k c)) (dequeue k q).1
dequeue-Only test k q o = record {
  unique = dequeue-IsUnique k q o.unique;
  none_else = λ c f. rw ((pending-dequeue k c q o.unique).0) (elim (Bool-cases (same k c)) [
    | inl e ↦ rw e refl
    | inr e ↦ rw e (o.none_else c (ground arith))
  ]);
}

-- What waits behind the event that is taken off.
pub tail-Only :
    (test : Callback → Bool) (x : TimeEvent) (q : List TimeEvent)
    → Only test (x ∷ q)
    → (test x.call ≡ true) × Only (λ c. test c && not (same x.call c)) q
unfolding pending
tail-Only test x q o = (
  ground (arith, Bool-cases (test x.call), o.none_else x.call, same_refl x.call),
  record {
    unique = o.unique.1;
    none_else =
        λ c f. ground (arith, o.none_else c, pending-Absent c q, Absent-same x q c o.unique);
  },
)
