-- ===== src/Groups/Exchange/Synced.antt =====
-- daemon/groups.c: the synced set after another set is added to it.
use mathlib.Core.List.{Permᴰ}
use mathlib.Core.List.Permᴰ as PermD
use in5020_distribuerte_syst.Prelude.{
  ℕ, zero, suc, ◌+◌, ◌≤◌, ◌≡◌, ◌≢◌, refl, sym, ap, ◌∙◌, List, [], ◌∷◌, ◌++◌, some, >>=-some,
  if-true, if-false, length, ltb, arith, All, All-imp, Bool-cases, inl, inr,
}
use in5020_distribuerte_syst.Groups.{Env}
use in5020_distribuerte_syst.Groups.State.{State}
use in5020_distribuerte_syst.Groups.Exchange.{conf_index, merge_synced, add_to_synced_set}

-- A process of the configuration.
abbrev pub IsKnown : Env → ℕ → Type 0
IsKnown e p = (i : ℕ) × (conf_index e p ≡ some i)

-- No process of the one list stands where one of the other does.
abbrev pub IsDisjoint : Env → List ℕ → List ℕ → Type 0
IsDisjoint e ls rs = All (λ l. All (λ r. conf_index e l ≢ conf_index e r) rs) ls

abbrev Merges : Env → ℕ → List ℕ → List ℕ → Type 0
Merges e n ls rs = (t : List ℕ) × (merge_synced e n ls rs ≡ some t) × Permᴰ (ls ++ rs) t

merge_synced-Merges :
    (e : Env) (n : ℕ) (ls rs : List ℕ)
    → length ls + length rs ≤ n
    → All (IsKnown e) ls
    → All (IsKnown e) rs
    → IsDisjoint e ls rs
    → Merges e n ls rs
unfolding merge_synced
merge_synced-Merges e zero [] [] h k m d = ([], refl, Permᴰ.nil)
merge_synced-Merges e zero (l ∷ ls) rs h k m d = absurd (omega arith)
merge_synced-Merges e zero [] (r ∷ rs) h k m d = absurd (omega arith)
merge_synced-Merges e (suc n) [] [] h k m d = ([], refl, Permᴰ.nil)
merge_synced-Merges e (suc n) [] (r ∷ rs) h k m d =
    let (t, q, p) = merge_synced-Merges e n [] rs (omega arith) tt m.1 tt in
    (r ∷ t, >>=-some _ _ _ _ (m.0).1 (>>=-some _ _ t _ q refl), Permᴰ.cons refl p)
merge_synced-Merges e (suc n) (l ∷ ls) [] h k m d =
    let (t, q, p) =
      merge_synced-Merges e n ls [] (omega arith) k.1 tt (All-imp (λ _ _. tt) ls d.1) in
    (l ∷ t, >>=-some _ _ _ _ (k.0).1 (>>=-some _ _ t _ q refl), Permᴰ.cons refl p)
merge_synced-Merges e (suc n) (l ∷ ls) (r ∷ rs) h k m d =
    let (i, ei) = k.0 in
    let (j, ej) = m.0 in
    let (t, q, p) = merge_synced-Merges e n ls (r ∷ rs) (omega arith) k.1 m d.1 in
    let (u, q', p') =
      merge_synced-Merges e n (l ∷ ls) rs (omega arith) k m.1 (All-imp (λ a x. x.1) (l ∷ ls) d) in
    elim (Bool-cases (ltb i j)) [
      | inl lt ↦ (
        l ∷ t,
        >>=-some _ _ i _ ei (>>=-some _ _ j _ ej (if-true _ _ _ _ lt (>>=-some _ _ t _ q refl))),
        Permᴰ.cons refl p,
      )
      | inr ge ↦ elim (Bool-cases (ltb j i)) [
        | inl gt ↦ (
          r ∷ u,
          >>=-some _ _ i _ ei (
              >>=-some _ _ j _ ej
                (if-false _ _ _ _ ge (if-true _ _ _ _ gt (>>=-some _ _ u _ q' refl)))),
          Permᴰ.trans (PermD.middle r (l ∷ ls) rs) (Permᴰ.cons refl p'),
        )
        | inr le ↦ let same : i ≡ j = ground arith in absurd (d.0.0 (ei ∙ ap some same ∙ sym ej))
      ]
    ]

-- Where the processes of two synced sets are in the configuration, none of the one where one of the
-- other is: G_add_to_synced_set returns, within its fuel and without an exit, and the synced set
-- then holds exactly the processes of both.
pub add_to_synced_set-Returns :
    (e : Env) (s : State) (sset : List ℕ)
    → All (IsKnown e) s.synced
    → All (IsKnown e) sset
    → IsDisjoint e s.synced sset
    → (s' : State) × (add_to_synced_set e sset s ≡ some s') × Permᴰ (s.synced ++ sset) s'.synced
unfolding add_to_synced_set
add_to_synced_set-Returns e s sset k m d =
    let (t, q, p) = merge_synced-Merges e _ s.synced sset (omega arith) k m d in
    (record s { synced = t }, >>=-some _ _ t _ q refl, p)
