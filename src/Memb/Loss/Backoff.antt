-- ===== src/Memb/Loss/Backoff.antt =====
-- What `Backoff_membership` leaves of the sequence numbers.
use in5020_distribuerte_syst.Prelude.{
  ℕ, zero, suc, ◌+◌, ◌-◌, ◌≡◌, ◌≤◌, ◌<◌, ◌≢◌, refl, ◌==◌, if◌then◌else◌, arith, subst, sym, ◌∙◌,
}
use native.Mathlib.Decide.{ℕ_discrete}
use in5020_distribuerte_syst.Memb.State.{Daemon}
use in5020_distribuerte_syst.Prot.Store.{pack_entry, put}
use in5020_distribuerte_syst.Memb.Loss.{clear_dummies, count_from, backoff_membership}

count_from-lem :
    (n e : ℕ) (exist : ℕ → ℕ) (a : ℕ) → count_from n e exist a ≡ (if exist e == 0 then a else a + n)
unfolding count_from
count_from-lem zero e exist a = ground arith
count_from-lem (suc n) e exist a = ground (arith, count_from-lem n e exist (suc a))

clear_dummies-ne :
    (n i : ℕ) (exist : ℕ → ℕ) (k : ℕ) → exist k ≢ 3 → clear_dummies n i exist k ≡ exist k
unfolding clear_dummies
clear_dummies-ne zero i exist k h = refl
clear_dummies-ne (suc n) i exist k h = ground (
  arith,
  clear_dummies-ne n (suc i)
      (if exist (pack_entry i) == 3 then put exist (pack_entry i) 0 else exist) k,
)

cleared_once : (e : ℕ) (exist : ℕ → ℕ) → (if exist e == 3 then put exist e 0 else exist) e ≢ 3
cleared_once e exist = ground arith

clear_dummies-none :
    (n i j : ℕ) (exist : ℕ → ℕ) → i ≤ j → j < i + n → clear_dummies n i exist (pack_entry j) ≢ 3
unfolding clear_dummies
clear_dummies-none zero i j exist h k = absurd (omega arith)
clear_dummies-none (suc n) i j exist h k = elim (ℕ_discrete i j) [
  | yes same ↦ λ three.
      let exist' = if exist (pack_entry i) == 3 then put exist (pack_entry i) 0 else exist in
      let now : exist' (pack_entry j) ≢ 3 =
        subst (λ t. exist' (pack_entry t) ≢ 3) same (cleared_once (pack_entry i) exist) in
      now (sym (clear_dummies-ne n (suc i) exist' (pack_entry j) now) ∙ three)
  | no other ↦ clear_dummies-none n (suc i) j _ (omega arith) (omega arith)
]

-- `Backoff_membership` sets `Aru` back to the last discarded packet, clears the dummy packets
-- behind it and no other, and sets `My_aru` to one of two values: the last discarded packet if the
-- entry of the highest sequence number is empty, and the highest sequence number otherwise,
-- whatever packets between them are missing.
pub backoff_membership_lem :
    (d : Daemon)
    → d.last_discarded ≤ d.highest_seq
    → let d' = backoff_membership d in
      (d'.aru ≡ d.last_discarded)
      × ((j : ℕ) → d.last_discarded < j → j ≤ d.highest_seq → d'.exist (pack_entry j) ≢ 3)
      × ((k : ℕ) → d.exist k ≢ 3 → d'.exist k ≡ d.exist k)
      × (d'.my_aru
          ≡ (if d'.exist (pack_entry d.highest_seq) == 0 then d.last_discarded else d.highest_seq))
unfolding backoff_membership
backoff_membership_lem d h =
    let n = d.highest_seq - d.last_discarded in
    let i = suc d.last_discarded in
    let cleared = clear_dummies n i d.exist in
    (
      refl,
      λ j a b. clear_dummies-none n i j d.exist (omega arith) (omega arith),
      λ k ne. clear_dummies-ne n i d.exist k ne,
      ground (arith, count_from-lem n (pack_entry d.highest_seq) cleared d.last_discarded),
    )
