-- ===== src/Tests/DaemonsLists.antt =====
-- A list of daemons in place of a skip list, searched with the comparison of daemon/groups.c.
use mathlib.Core.List.{Permᴰ}
use mathlib.Core.List.Permᴰ as PermD
use mathlib.Core.Bool.{true≢false}
use mathlib.Core.Option.{none-ne-some, some-injective}
use native.Mathlib.Decide.{ℕ_discrete}
use in5020_distribuerte_syst.Prelude.{
  ℕ, ◌≡◌, ◌≢◌, refl, sym, ap, ◌∙◌, subst, Bool, true, false, ◌==◌, if◌then◌else◌, List, [], ◌∷◌,
  Option, none, some, ◌>>=◌, All, ℤ, pos, negsuc, Bool-cases, Option-cases, inl, inr, ==_iff,
  >>=-some,
}
use in5020_distribuerte_syst.Conf.{Proc}
use in5020_distribuerte_syst.Groups.{DaemonMembers, DaemonsList, compare_proc_ids_by_conf}
use in5020_distribuerte_syst.Tests.Skiplists.{erase_in, erase_in-perm}

abbrev is_zero : ℤ → Bool
is_zero (pos n) = n == 0
is_zero (negsuc n) = false

is_zero-pos : (c : ℤ) → is_zero c ≡ true → c ≡ pos 0
is_zero-pos (pos n) h = ap pos ((==_iff n 0).0 h)
is_zero-pos (negsuc n) h = absurd (true≢false (sym h))

-- What a comparison decides.
abbrev pick : DaemonMembers → Option (Option DaemonMembers) → ℤ → Option (Option DaemonMembers)
pick d rest c = if is_zero c then some (some d) else rest

module _ (table : List Proc) where
  abbrev pub find_daemon : List DaemonMembers → ℕ → Option (Option DaemonMembers)
  find_daemon [] id = some none
  find_daemon (d ∷ ds) id =
      let rest = find_daemon ds id in compare_proc_ids_by_conf table d.proc_id id >>= pick d rest

  pub find_daemon-Returns :
      (ds : List DaemonMembers) (id : ℕ)
      → All (λ d. (c : ℤ) × (compare_proc_ids_by_conf table d.proc_id id ≡ some c)) ds
      → (o : Option DaemonMembers) × (find_daemon ds id ≡ some o)
  find_daemon-Returns [] id a = (none, refl)
  find_daemon-Returns (d ∷ ds) id ((c, e), a) = elim (Bool-cases (is_zero c)) [
    | inl z ↦ (some d, rw (e, z) refl)
    | inr n ↦ let (o, f) = find_daemon-Returns ds id a in (o, rw (e, n) f)
  ]

  pub find_daemon-some :
      (ds : List DaemonMembers) (id : ℕ) (d : DaemonMembers)
      → find_daemon ds id ≡ some (some d)
      → (compare_proc_ids_by_conf table d.proc_id id ≡ some (pos 0))
        × (rest : List DaemonMembers) × Permᴰ ds (d ∷ rest)
  find_daemon-some [] id d h = absurd (none-ne-some d (some-injective _ _ h))
  find_daemon-some (b ∷ ds) id d h =
      elim (Option-cases (compare_proc_ids_by_conf table b.proc_id id)) [
        | inl e ↦ absurd (none-ne-some _ (sym (ap (λ o. o >>= pick b (find_daemon ds id)) e) ∙ h))
        | inr (c, e) ↦
            let h' : pick b (find_daemon ds id) c ≡ some (some d) =
              sym (ap (λ o. o >>= pick b (find_daemon ds id)) e) ∙ h in
            elim (Bool-cases (is_zero c)) [
              | inl z ↦
                  let same : b ≡ d =
                    some-injective _ _ (some-injective _ _ (sym (rw z refl) ∙ h')) in
                  (
                    subst (λ k. compare_proc_ids_by_conf table k.proc_id id ≡ some (pos 0)) same
                        (e ∙ ap some (is_zero-pos c z)),
                    ds,
                    Permᴰ.cons same (PermD.refl ds),
                  )
              | inr n ↦
                  let (q, rest, p) = find_daemon-some ds id d (sym (rw n refl) ∙ h') in
                  (q, b ∷ rest, Permᴰ.trans (Permᴰ.cons refl p) (Permᴰ.swap refl refl))
            ]
      ]

  pub find_daemon-none :
      (ds : List DaemonMembers) (id : ℕ)
      → find_daemon ds id ≡ some none
      → All (λ d. compare_proc_ids_by_conf table d.proc_id id ≢ some (pos 0)) ds
  find_daemon-none [] id h = tt
  find_daemon-none (b ∷ ds) id h =
      elim (Option-cases (compare_proc_ids_by_conf table b.proc_id id)) [
        | inl e ↦ absurd (none-ne-some _ (sym (ap (λ o. o >>= pick b (find_daemon ds id)) e) ∙ h))
        | inr (c, e) ↦
            let h' : pick b (find_daemon ds id) c ≡ some none =
              sym (ap (λ o. o >>= pick b (find_daemon ds id)) e) ∙ h in
            elim (Bool-cases (is_zero c)) [
              | inl z ↦ absurd (none-ne-some b (sym (some-injective _ _ (sym (rw z refl) ∙ h'))))
              | inr n ↦ (
                λ q. true≢false (sym (ap is_zero (some-injective _ _ (sym e ∙ q))) ∙ n),
                find_daemon-none ds id (sym (rw n refl) ∙ h'),
              )
            ]
      ]

  abbrev pub listed_daemons : DaemonsList table
  listed_daemons = record {
    find = find_daemon;
    put = λ ds d. find_daemon ds d.proc_id >>= λ _. some (d ∷ ds);
    erase = erase_in (λ d. d.proc_id) ℕ_discrete;
    find-Returns = find_daemon-Returns;
    find-some = find_daemon-some;
    find-none = find_daemon-none;
    erase-perm = erase_in-perm (λ d. d.proc_id) ℕ_discrete;
    put-perm = λ ds d f. (d ∷ ds, >>=-some _ _ none _ f refl, PermD.refl (d ∷ ds));
  }
