-- ===== src/Memb/Members/Smallest.antt =====
-- What `Smallest_member` finds.
use in5020_distribuerte_syst.Prelude.{
  ℕ, zero, suc, ◌+◌, ◌-◌, ◌≡◌, ◌<◌, refl, ap, true, false, Bool-cases, inl, inr, List, Option, none,
  some, get_or, arith, subst, Option-cases, ◌≢◌,
}
use native.Mathlib.Decide.{ℕ_discrete}
use in5020_distribuerte_syst.Conf.{Proc, proc_by_id}
use in5020_distribuerte_syst.Memb.Members.{MembersInfo, precedes, smallest_from, smallest_member}

module _ (table : List Proc) where
  abbrev pub proc_of : Option (ℕ × Proc) → Option Proc
  proc_of none = none
  proc_of (some (k, p)) = some p

  -- The process that the entry `j` of the array names.
  abbrev pub named : List ℕ → ℕ → Option Proc
  named xs j = proc_of (proc_by_id table (get_or xs j 0))

  -- None of the first `n` entries names a process that stands before `q` in the configuration.
  abbrev pub NoneBefore : List ℕ → ℕ → Proc → Type 0
  NoneBefore xs n q = (j : ℕ) (p : Proc) → j < n → named xs j ≡ some p → precedes p q ≡ false

  -- Each of the first `n` entries is in the configuration.
  abbrev pub AllNamed : List ℕ → ℕ → Type 0
  AllNamed xs n = (j : ℕ) → j < n → named xs j ≢ none

  before_trans : (p q r : Proc) → precedes p q ≡ false → precedes r q ≡ true → precedes p r ≡ false
  before_trans p q r h k = ground arith

  abbrev pub IsLeast : List ℕ → ℕ → ℕ → Type 0
  IsLeast xs n r = (r < n) × ((q : Proc) × (named xs r ≡ some q) × NoneBefore xs n q)

  NoneBefore-suc :
      (xs : List ℕ) (i : ℕ) (p q : Proc)
      → NoneBefore xs i q
      → named xs i ≡ some p
      → precedes p q ≡ false
      → NoneBefore xs (suc i) q
  NoneBefore-suc xs i p q all e h j r lt f = elim (ℕ_discrete j i) [
    | yes same ↦ ground (arith, h, e, f, ap (named xs) same)
    | no other ↦ all j r (omega arith) f
  ]

  smallest_from-IsLeast :
      (xs : List ℕ) (n i current : ℕ) (q : Proc) (total : ℕ)
      → total ≡ i + n
      → current < i
      → named xs current ≡ some q
      → NoneBefore xs i q
      → AllNamed xs total
      → (r : ℕ) × (smallest_from table xs n i current q ≡ some r) × IsLeast xs total r
  unfolding smallest_from
  smallest_from-IsLeast xs zero i current q total t lt e all known =
      (current, refl, (omega arith, (q, e, subst (λ k. NoneBefore xs k q) (omega arith) all)))
  smallest_from-IsLeast xs (suc n) i current q total t lt e all known =
      elim (Option-cases (proc_by_id table (get_or xs i 0))) [
        | inl h ↦ absurd (known i (omega arith) (ap proc_of h))
        | inr ((k, p), h) ↦ elim (Bool-cases (precedes p q)) [
          | inl b ↦
              rw (h, smallest_from, b)
                (smallest_from-IsLeast xs n (suc i) i p total (omega arith) (omega arith)
                  (ap proc_of h)
                  (NoneBefore-suc xs i p p (λ j r l f. before_trans r q p (all j r l f) b)
                    (ap proc_of h) (ground arith))
                  known)
          | inr b ↦
              rw (h, smallest_from, b)
                (smallest_from-IsLeast xs n (suc i) current q total (omega arith) (omega arith) e
                  (NoneBefore-suc xs i p q all (ap proc_of h) b) known)
        ]
      ]

  smallest_member-found :
      (m : MembersInfo) (k r : ℕ) (p : Proc)
      → proc_by_id table (get_or m.members 0 0) ≡ some (k, p)
      → smallest_from table m.members (m.num_members - 1) 1 0 p ≡ some r
      → smallest_member table m ≡ some (get_or m.members r 0, r)
  unfolding smallest_member
  smallest_member-found m k r p e f = rw (e, smallest_member, f)

  -- Where every member is in the configuration and there is one, `Smallest_member` returns, with
  -- its index, a member before which no other stands in the configuration.
  pub smallest_member-IsLeast :
      (m : MembersInfo)
      → 0 < m.num_members
      → AllNamed m.members m.num_members
      → (r : ℕ) × (smallest_member table m ≡ some (get_or m.members r 0, r))
        × IsLeast m.members m.num_members r
  smallest_member-IsLeast m h known =
      elim (Option-cases (proc_by_id table (get_or m.members 0 0))) [
        | inl e ↦ absurd (known 0 h (ap proc_of e))
        | inr ((k, p), e) ↦
            let (r, found, least) =
              smallest_from-IsLeast m.members (m.num_members - 1) 1 0 p m.num_members (omega arith)
                (omega arith) (ap proc_of e)
                (NoneBefore-suc m.members 0 p p (λ j q l f. absurd (omega arith)) (ap proc_of e)
                  (ground arith))
                known in
            (r, smallest_member-found m k r p e found, least)
      ]
