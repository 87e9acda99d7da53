-- ===== src/Events/Time.antt =====
-- daemon/events.c, `E_sub_time`, `E_add_time` and `E_compare_time`.
-- A `long` is an integer here: a sum of two clock values stays far below 2 ^ 63.
pub mod Arithmetic
use in5020_distribuerte_syst.Prelude.{
  ℕ, ◌+◌, ◌*◌, ◌≤◌, ◌<◌, ◌≡◌, refl, Bool, true, false, arith, ltb, if◌then◌else◌, ℤ, pos, negsuc,
  ◌+ℤ◌, ◌-ℤ◌, ltb_ℤ, pos_part, neg_part, int_laws, ◌⊎◌, ◌↔◌,
}

-- `sp_time`.
pub record SpTime : Type 0 where
  pub sec : ℤ
  pub usec : ℤ

abbrev pub million : ℤ
million = pos 1_000_000

unfoldable pub sub_time : SpTime → SpTime → SpTime
sub_time t delta =
    let sec = t.sec -ℤ delta.sec in
    let usec = t.usec -ℤ delta.usec in
    if ltb_ℤ usec (pos 0)
    then record { sec = sec -ℤ pos 1; usec = usec +ℤ million }
    else record { sec = sec; usec = usec }

unfoldable pub add_time : SpTime → SpTime → SpTime
add_time t delta =
    let sec = t.sec +ℤ delta.sec in
    let usec = t.usec +ℤ delta.usec in
    if ltb_ℤ million usec
    then record { sec = sec +ℤ pos 1; usec = usec -ℤ million }
    else record { sec = sec; usec = usec }

-- The result is 1, -1 or 0.
unfoldable pub compare_time : SpTime → SpTime → ℤ
compare_time a b =
    if ltb_ℤ b.sec a.sec
    then pos 1
    else if ltb_ℤ a.sec b.sec
    then negsuc 0
    else if ltb_ℤ b.usec a.usec
    then pos 1
    else if ltb_ℤ a.usec b.usec
    then negsuc 0
    else pos 0
