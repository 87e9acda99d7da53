-- ===== src/Events/Time/Arithmetic.antt =====
-- What the clock arithmetic of daemon/events.c computes, in microseconds.
use in5020_distribuerte_syst.Prelude.{
  ◌+◌, ◌*◌, ◌≡◌, arith, ℤ, pos, negsuc, ◌+ℤ◌, ◌-ℤ◌, ◌≤ℤ◌, ◌<ℤ◌, sub_ℕ, pos_part, neg_part, +ℤ_parts,
  -ℤ_parts, eq_of_parts, ◌↔◌, ◌⊎◌,
}
use in5020_distribuerte_syst.Events.Time.{SpTime, million, add_time, sub_time, compare_time}

-- The instant that a `sp_time` stands for.
unfoldable pub micros : SpTime → ℤ
micros t =
    sub_ℕ (pos_part t.sec * 1_000_000 + pos_part t.usec)
      (neg_part t.sec * 1_000_000 + neg_part t.usec)

pub micros_parts :
    (t : SpTime)
    → pos_part (micros t) + (neg_part t.sec * 1_000_000 + neg_part t.usec)
      ≡ neg_part (micros t) + (pos_part t.sec * 1_000_000 + pos_part t.usec)
unfolding micros
micros_parts t = ground arith

-- 0 ≤ usec < 1000000, as `gettimeofday` gives it.
pub record IsNormal (t : SpTime) : Type 0 where
  pub nonneg : pos 0 ≤ℤ t.usec
  pub below : t.usec <ℤ million

-- The sum stands for the sum of the instants, whatever the operands are.
micros-add_time : (t d : SpTime) → micros (add_time t d) ≡ micros t +ℤ micros d
unfolding add_time
micros-add_time t d = eq_of_parts _ _ (
    ground (
      arith,
      micros_parts (add_time t d),
      micros_parts t,
      micros_parts d,
      +ℤ_parts (micros t) (micros d),
      +ℤ_parts t.sec d.sec,
      +ℤ_parts t.usec d.usec,
      +ℤ_parts (t.sec +ℤ d.sec) (pos 1),
      -ℤ_parts (t.usec +ℤ d.usec) million,
    ))

-- The difference stands for the difference of the instants, negative results included.
pub micros-sub_time : (t d : SpTime) → micros (sub_time t d) ≡ micros t -ℤ micros d
unfolding sub_time
micros-sub_time t d = eq_of_parts _ _ (
    ground (
      arith,
      micros_parts (sub_time t d),
      micros_parts t,
      micros_parts d,
      -ℤ_parts (micros t) (micros d),
      -ℤ_parts t.sec d.sec,
      -ℤ_parts t.usec d.usec,
      -ℤ_parts (t.sec -ℤ d.sec) (pos 1),
      +ℤ_parts (t.usec -ℤ d.usec) million,
    ))

-- The difference of two times in normal form is in normal form.
sub_time-IsNormal : {t d : SpTime} → IsNormal t → IsNormal d → IsNormal (sub_time t d)
unfolding sub_time
sub_time-IsNormal {t} {d} n m = record {
  nonneg = ground (arith, -ℤ_parts t.usec d.usec, +ℤ_parts (t.usec -ℤ d.usec) million);
  below = ground (arith, -ℤ_parts t.usec d.usec, +ℤ_parts (t.usec -ℤ d.usec) million);
}

-- The sum of two times in normal form is in normal form exactly when their microseconds do not
-- make up one whole second: the test is `> 1000000` and leaves 1000000 as it is.
add_time-IsNormal_iff :
    {t d : SpTime}
    → IsNormal t
    → IsNormal d
    → IsNormal (add_time t d) ↔ ¬ (t.usec +ℤ d.usec ≡ million)
unfolding add_time
add_time-IsNormal_iff {t} {d} n m = (
  (λ v e. whole e v.below),
  λ ne. record {
    nonneg = ground (arith, +ℤ_parts t.usec d.usec, -ℤ_parts (t.usec +ℤ d.usec) million);
    below = ground (
      arith,
      +ℤ_parts t.usec d.usec,
      -ℤ_parts (t.usec +ℤ d.usec) million,
      eq_of_parts (t.usec +ℤ d.usec) million,
    );
  },
)
  where
    whole : t.usec +ℤ d.usec ≡ million → ¬ ((add_time t d).usec <ℤ million)
    whole e h = ground (arith, +ℤ_parts t.usec d.usec, -ℤ_parts (t.usec +ℤ d.usec) million)

-- For two times with microseconds from 0 to 999999, the sum by E_add_time stands for the sum of the
-- two instants in microseconds, and has such microseconds exactly if the two microseconds do not make
-- up 1000000.
pub add_time_lem :
    {t d : SpTime}
    → IsNormal t
    → IsNormal d
    → (micros (add_time t d) ≡ micros t +ℤ micros d)
      × (IsNormal (add_time t d) ↔ ¬ (t.usec +ℤ d.usec ≡ million))
add_time_lem {t} {d} n m = (micros-add_time t d, add_time-IsNormal_iff n m)

-- For two times with microseconds from 0 to 999999, the difference by E_sub_time stands for the
-- difference of the two instants in microseconds, a negative one included, and has such microseconds.
sub_time_lem :
    {t d : SpTime}
    → IsNormal t
    → IsNormal d
    → (micros (sub_time t d) ≡ micros t -ℤ micros d) × IsNormal (sub_time t d)
sub_time_lem {t} {d} n m = (micros-sub_time t d, sub_time-IsNormal n m)

compare_time_cases :
    {a b : SpTime}
    → IsNormal a
    → IsNormal b
    → ((compare_time a b ≡ pos 1) × (micros b <ℤ micros a))
      ⊎ ((compare_time a b ≡ negsuc 0) × (micros a <ℤ micros b))
      ⊎ ((compare_time a b ≡ pos 0) × (micros a ≡ micros b))
unfolding compare_time
compare_time_cases {a} {b} n m =
    ground (arith, micros_parts a, micros_parts b, eq_of_parts (micros a) (micros b))

-- On times in normal form `E_compare_time` compares the instants.
pub compare_time_lem :
    {a b : SpTime}
    → IsNormal a
    → IsNormal b
    → ((compare_time a b ≡ pos 1) ↔ (micros b <ℤ micros a))
      × ((compare_time a b ≡ negsuc 0) ↔ (micros a <ℤ micros b))
      × ((compare_time a b ≡ pos 0) ↔ (micros a ≡ micros b))
compare_time_lem {a} {b} n m =
    let cases = compare_time_cases n m in
    (ground (arith, cases), ground (arith, cases), ground (arith, cases))
