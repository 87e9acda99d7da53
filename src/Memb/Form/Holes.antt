-- ===== src/Memb/Form/Holes.antt =====
-- daemon/membership.c: which packets the daemons of a ring tell of as holes in `Fill_form1`.
use in5020_distribuerte_syst.Prelude.{
  ℕ, zero, suc, ◌+◌, ◌-◌, ◌≡◌, refl, sym, ap, ◌∙◌, Bool, not, ◌&&◌, ◌||◌, ltb, leb, ◌==◌, ==_iff,
  ==_refl, Bool-cases, inl, inr, List, [], ◌∷◌, ◌++◌, arith,
}
use in5020_distribuerte_syst.Prot.Store.{pack_entry}
use in5020_distribuerte_syst.Memb.Members.Insert.{contains}
use in5020_distribuerte_syst.Memb.Form.{without, holes_in}
use in5020_distribuerte_syst.Memb.Form.Fill.{shared_holes}
use in5020_distribuerte_syst.Memb.Rings.{RingInfo}

contains-append :
    (xs ys : List ℕ) (q : ℕ) → contains (xs ++ ys) q ≡ (contains xs q || contains ys q)
contains-append [] ys q = refl
contains-append (x ∷ xs) ys q = ground (arith, contains-append xs ys q)

-- Of the numbers that stay, those that do not pass.
contains-without :
    (test : ℕ → Bool) (xs : List ℕ) (q : ℕ)
    → contains (without test xs) q ≡ (contains xs q && not (test q))
unfolding without
contains-without test [] q = refl
contains-without test (x ∷ xs) q =
    let rest = contains-without test xs q in
    elim (Bool-cases (x == q)) [
      | inl same ↦
          let at : test x ≡ test q = ap test ((==_iff x q).0 same) in
          elim (Bool-cases (test q)) [
            | inl passes ↦ rw (at, passes, same) (rest ∙ ground (arith, passes))
            | inr stays ↦ rw (at, stays, same) refl
          ]
      | inr other ↦ elim (Bool-cases (test x)) [
        | inl passes ↦ rw (passes, other) rest
        | inr stays ↦ rw (stays, other) rest
      ]
    ]

pub contains-holes_in :
    (exist : ℕ → ℕ) (n i q : ℕ)
    → contains (holes_in exist n i) q ≡ ((exist (pack_entry q) == 0) && (leb i q && ltb q (i + n)))
unfolding holes_in
contains-holes_in exist zero i q = ground arith
contains-holes_in exist (suc n) i q =
    let rest = contains-holes_in exist n (suc i) q in
    elim (Bool-cases (i == q)) [
      | inl same ↦ go_same ((==_iff i q).0 same) rest
      | inr other ↦ elim (Bool-cases (exist (pack_entry i) == 0)) [
        | inl free ↦ rw (free, other) (rest ∙ ground (arith, other))
        | inr used ↦ rw used (rest ∙ ground (arith, other))
      ]
    ]
  where
    go_same :
        i ≡ q
        → contains (holes_in exist n (suc i)) q
          ≡ ((exist (pack_entry q) == 0) && (leb (suc i) q && ltb q (suc i + n)))
        → contains (holes_in exist (suc n) i) q
          ≡ ((exist (pack_entry q) == 0) && (leb i q && ltb q (i + suc n)))
    go_same at rest = elim (Bool-cases (exist (pack_entry q) == 0)) [
      | inl free ↦ rw (at, free, ==_refl q) ground arith
      | inr used ↦
          rw (at, used)
            (ap (λ j. contains (holes_in exist n (suc j)) q) (sym at) ∙ rest ∙ ground (arith, at))
    ]

-- A hole of the ring is one of the daemon too, or was above the highest number of the ring.
pub contains-shared_holes :
    (exist : ℕ → ℕ) (highest : ℕ) (r : RingInfo) (q : ℕ)
    → contains (shared_holes exist highest r) q ≡ (
        (exist (pack_entry q) == 0)
        && (contains r.holes q || (ltb r.highest_seq q && leb q highest)))
unfolding shared_holes
contains-shared_holes exist highest r q =
    contains-append (without (λ k. not (exist (pack_entry k) == 0)) r.holes)
      (holes_in exist (highest - r.highest_seq) (suc r.highest_seq)) q
    ∙ rw
        (
          contains-without (λ k. not (exist (pack_entry k) == 0)) r.holes q,
          contains-holes_in exist (highest - r.highest_seq) (suc r.highest_seq) q,
        )
        (ground arith)
