-- ===== src/Memb/Members/Sort.antt =====
-- What `Sort_members` does: a permutation into the order of the configuration.
use mathlib.Core.List.{Perm, Permᴰ, append-nil, append_assoc}
use mathlib.Core.List.Permᴰ as PermD
use in5020_distribuerte_syst.Prelude.{
  ℕ, zero, suc, ◌+◌, ◌-◌, ◌≡◌, ◌≤◌, ◌<◌, refl, ap, false, List, [], ◌∷◌, Option, some, take, set,
  get_or, length, ◌++◌, arith, length-set, take-set, subst, ◌∙◌, sym, get_or-set_ne,
  get_or-set_self, All, All-perm,
}
use native.Mathlib.Decide.{ℕ_discrete}
use in5020_distribuerte_syst.Conf.{Proc, proc_by_id}
use in5020_distribuerte_syst.Memb.Members.{
  MembersInfo, active, precedes, smallest_member, sort_from, sort_members,
}
use in5020_distribuerte_syst.Memb.Members.Smallest.{
  proc_of, AllNamed, IsLeast, smallest_member-IsLeast,
}

-- The last of the first `n + 1` entries, moved to the front.
take-snoc :
    (n : ℕ) (xs : List ℕ) → n < length xs → Permᴰ (take (suc n) xs) (get_or xs n 0 ∷ take n xs)
take-snoc n [] h = absurd (omega arith)
take-snoc zero (x ∷ xs) h = PermD.refl _
take-snoc (suc n) (x ∷ xs) h =
    Permᴰ.trans (Permᴰ.cons refl (take-snoc n xs (omega arith))) (Permᴰ.swap refl refl)

-- Filling the place of an entry with the last one takes just that entry out.
swap_remove-perm :
    (n k : ℕ) (xs : List ℕ)
    → k < suc n
    → n < length xs
    → Permᴰ (take (suc n) xs) (get_or xs k 0 ∷ take n (set xs k (get_or xs n 0)))
swap_remove-perm n k [] h l = absurd (omega arith)
swap_remove-perm zero zero (x ∷ xs) h l = PermD.refl _
swap_remove-perm zero (suc k) (x ∷ xs) h l = absurd (omega arith)
swap_remove-perm (suc n) zero (x ∷ xs) h l = Permᴰ.cons refl (take-snoc n xs (omega arith))
swap_remove-perm (suc n) (suc k) (x ∷ xs) h l =
    Permᴰ.trans (Permᴰ.cons refl (swap_remove-perm n k xs (omega arith) (omega arith)))
      (Permᴰ.swap refl refl)

All-take {κ} :
    (P : ℕ → Type κ) (n : ℕ) (xs : List ℕ)
    → n ≤ length xs
    → ((j : ℕ) → j < n → P (get_or xs j 0))
    → All P (take n xs)
All-take P zero xs l h = tt
All-take P (suc n) [] l h = absurd (omega arith)
All-take P (suc n) (x ∷ xs) l h =
    (h 0 (omega arith), All-take P n xs (omega arith) (λ j b. h (suc j) (omega arith)))

module _ (table : List Proc) where
  abbrev pub proc_at : ℕ → Option Proc
  proc_at id = proc_of table (proc_by_id table id)

  -- `y` does not stand before `x` in the configuration.
  abbrev pub NotBefore : ℕ → ℕ → Type 0
  NotBefore x y = (p q : Proc) → proc_at y ≡ some p → proc_at x ≡ some q → precedes p q ≡ false

  -- Each id is followed by none that stands before it.
  abbrev pub InOrder : List ℕ → Type 0
  InOrder [] = Unit
  InOrder (x ∷ xs) = All (NotBefore x) xs × InOrder xs

  sort_from-step :
      (n i pending r id : ℕ) (ms xs : List ℕ)
      → smallest_member table (record { num_members = suc n; num_pending = pending; members = ms })
        ≡ some (id, r)
      → sort_from table
          (suc n)
          i
          (record { num_members = suc n; num_pending = pending; members = ms })
          xs
        ≡ sort_from table n
            (suc i)
            (record { num_members = n; num_pending = pending; members = set ms r (get_or ms n 0) })
            (set xs i (get_or ms r 0))
  unfolding sort_from
  sort_from-step n i pending r id ms xs e =
      let one : suc n - 1 ≡ n = omega arith in rw (e, sort_from, one)

  AllNamed-set :
      (ms : List ℕ) (n r : ℕ)
      → r < suc n
      → n < length ms
      → AllNamed table ms (suc n)
      → AllNamed table (set ms r (get_or ms n 0)) n
  AllNamed-set ms n r b l known j lt e = elim (ℕ_discrete r j) [
    | yes same ↦
        let v = get_or ms n 0 in
        let there : get_or (set ms r v) j 0 ≡ v =
          subst (λ t. get_or (set ms r v) t 0 ≡ v) same (get_or-set_self ms r v 0 (omega arith)) in
        known n (omega arith) (ap proc_at (sym there) ∙ e)
    | no other ↦
        known j (omega arith) (ap proc_at (sym (get_or-set_ne ms r j (get_or ms n 0) 0 other)) ∙ e)
  ]

  least_first :
      (ms : List ℕ) (n r : ℕ)
      → suc n ≤ length ms
      → IsLeast table ms (suc n) r
      → All (NotBefore (get_or ms r 0)) (take (suc n) ms)
  least_first ms n r l (b, (q, e, none_before)) =
      All-take (NotBefore (get_or ms r 0)) (suc n) ms l λ j lt p q' f g.
        let same : q ≡ q' = cc (sym e ∙ g) in
        subst (λ x. precedes p x ≡ false) same (none_before j p lt f)

  -- What the loop leaves in the array: the entries before `i`, then the entries of the copy,
  -- sorted.
  abbrev Sorts : ℕ → ℕ → List ℕ → List ℕ → Option (List ℕ) → Type 0
  Sorts n i ms xs result =
      (ys : List ℕ) × (sel : List ℕ) × (result ≡ some ys)
      × (take (n + i) ys ≡ take i xs ++ sel)
      × (length ys ≡ length xs)
      × Permᴰ (take n ms) sel
      × InOrder sel

  sort_from-Sorts :
      (n i pending : ℕ) (ms xs : List ℕ)
      → n ≤ length ms
      → n + i ≤ length xs
      → AllNamed table ms n
      → Sorts n i ms xs
          (sort_from table n i (record { num_members = n; num_pending = pending; members = ms }) xs)
  unfolding sort_from
  sort_from-Sorts zero i pending ms xs l k known =
      (xs, [], refl, rw append-nil (ap (λ k. take k xs) (omega arith)), refl, PermD.refl _, tt)
  sort_from-Sorts (suc n) i pending ms xs l k known =
      let m : MembersInfo = record { num_members = suc n; num_pending = pending; members = ms } in
      let (r, found, least) = smallest_member-IsLeast table m (omega arith) known in
      let x = get_or ms r 0 in
      let ms' = set ms r (get_or ms n 0) in
      let perm : Permᴰ (take (suc n) ms) (x ∷ take n ms') =
        swap_remove-perm n r ms least.0 (omega arith) in
      let (ys, sel, e, tk, len, rest, ord) =
        sort_from-Sorts n (suc i) pending ms' (set xs i x)
          (omega (arith, length-set ms r (get_or ms n 0))) (omega (arith, length-set xs i x))
          (AllNamed-set ms n r least.0 (omega arith) known) in
      (
        ys,
        x ∷ sel,
        sort_from-step n i pending r x ms xs found ∙ e,
        ap (λ k. take k ys) (omega arith)
            ∙ tk
            ∙ ap (λ t. t ++ sel) (take-set i xs x (omega arith))
            ∙ append_assoc (take i xs) (x ∷ []) sel,
        len ∙ length-set xs i x,
        Permᴰ.trans perm (Permᴰ.cons refl rest),
        (
          All-perm (NotBefore x) rest
              ((All-perm (NotBefore x) perm (least_first ms n r (omega arith) least)).1),
          ord,
        ),
      )

  sort_members-found :
      (m : MembersInfo) (ys : List ℕ)
      → sort_from table m.num_members 0 m m.members ≡ some ys
      → sort_members table m ≡ some (record m { members = ys })
  unfolding sort_members
  sort_members-found m ys e = rw (e, sort_members)

  -- Where every member is in the configuration, `Sort_members` returns, and leaves the same
  -- members in the order of the configuration, none before one that stands earlier.
  pub sort_members-sorts :
      (m : MembersInfo)
      → m.num_members ≤ length m.members
      → AllNamed table m.members m.num_members
      → (m' : MembersInfo) × (sort_members table m ≡ some m')
        × (m'.num_members ≡ m.num_members)
        × (m'.num_pending ≡ m.num_pending)
        × Perm (active m) (active m')
        × InOrder (active m')
  sort_members-sorts m l known =
      let n = m.num_members in
      let (ys, sel, e, tk, len, perm, ord) =
        sort_from-Sorts n 0 m.num_pending m.members m.members l (omega arith) known in
      let same : take n ys ≡ sel = ap (λ k. take k ys) (omega arith) ∙ tk in
      (
        record m { members = ys },
        sort_members-found m ys e,
        refl,
        refl,
        ∣ subst (λ t. Permᴰ (active m) t) (sym same) perm ∣₁,
        subst InOrder (sym same) ord,
      )
