-- ===== src/Groups/Names/Private.antt =====
-- daemon/groups.c: the names of a process and of its daemon in a private group.
use mathlib.Core.Option.{none-ne-some, some-injective}
use in5020_distribuerte_syst.Prelude.{
  ℕ, ◌≤◌, ◌≡◌, ◌↔◌, refl, sym, ap, ◌∙◌, subst, true, false, not, ◌&&◌, ◌||◌, ◌==◌, ==_iff, [], ◌∷◌,
  ◌++◌, some, length, arith, if-true, if-false, Bool-cases, Option-cases, inl, inr,
}
use in5020_distribuerte_syst.Groups.{Name}
use in5020_distribuerte_syst.Groups.Names.{
  is_hash, is_legal, push_front, split_at_hash, check_names, is_bad_length, private_to_names,
}

-- A name of the right length, of legal characters.
abbrev pub IsPart : ℕ → Name → Type 0
IsPart bound n = (1 ≤ length n) × (length n ≤ bound) × (is_legal n ≡ true)

legal-cons :
    (c : ℕ) (u : Name) → is_legal (c ∷ u) ≡ true → ((c == 35) ≡ false) × (is_legal u ≡ true)
legal-cons c u h = (ground (arith, h), ground (arith, h))

split-legal : (u v : Name) → is_legal u ≡ true → split_at_hash (u ++ 35 ∷ v) ≡ some (u, v)
split-legal [] v h = refl
split-legal (c ∷ u) v h =
    if-false _ _ _ _ (legal-cons c u h).0 (ap (push_front c) (split-legal u v (legal-cons c u h).1))

split-splits : (cs u v : Name) → split_at_hash cs ≡ some (u, v) → cs ≡ u ++ 35 ∷ v
split-splits [] u v h = absurd (none-ne-some (u, v) h)
split-splits (c ∷ cs) u v h = elim (Bool-cases (is_hash c)) [
  | inl e ↦
      let p : ([], cs) ≡ (u, v) = some-injective _ _ (sym (if-true _ _ _ _ e refl) ∙ h) in
      ap (λ k. k ∷ cs) ((==_iff c 35).0 e) ∙ ap (λ r. r.0 ++ 35 ∷ r.1) p
  | inr e ↦ elim (Option-cases (split_at_hash cs)) [
    | inl n ↦ absurd (none-ne-some (u, v) (sym (if-false _ _ _ _ e (ap (push_front c) n)) ∙ h))
    | inr (r, f) ↦
        let p : (c ∷ r.0, r.1) ≡ (u, v) =
          some-injective _ _ (sym (if-false _ _ _ _ e (ap (push_front c) f)) ∙ h) in
        ap (λ l. c ∷ l) (split-splits cs r.0 r.1 f) ∙ ap (λ q. q.0 ++ 35 ∷ q.1) p
  ]
]

abbrev IsFit : ℕ → Name → Name → Type 0
IsFit c u v =
    (c ≡ 35)
    × ((1 ≤ length u) × (length u ≤ 10) × (is_legal u ≡ true))
    × ((1 ≤ length v) × (length v ≤ 19) × (is_legal v ≡ true))

check_names-fit : (c : ℕ) (u v : Name) → IsFit c u v → check_names c (some (u, v)) ≡ some (u, v)
check_names-fit c u v (h, (l, m, a), (l', m', b)) = ground arith

check_names-IsFit :
    (c : ℕ) (a b : Name) (r : Name × Name)
    → check_names c (some (a, b)) ≡ some r
    → ((a, b) ≡ r) × IsFit c a b
check_names-IsFit c a b r h = elim (Bool-cases (not (is_hash c) || is_bad_length a b)) [
  | inl bad ↦ absurd (none-ne-some r (sym (if-true _ _ _ _ bad refl) ∙ h))
  | inr good ↦ elim (Bool-cases (is_legal a && is_legal b)) [
    | inr odd ↦
        absurd (none-ne-some r (sym (if-false _ _ _ _ good (if-false _ _ _ _ odd refl)) ∙ h))
    | inl legal ↦ (
      some-injective _ _ (sym (if-false _ _ _ _ good (if-true _ _ _ _ legal refl)) ∙ h),
      (
        ground arith,
        (ground arith, ground arith, ground arith),
        (ground arith, ground arith, ground arith),
      ),
    )
  ]
]

private_to_names-splits :
    (n u v : Name)
    → private_to_names n ≡ some (u, v)
    → (n ≡ 35 ∷ (u ++ 35 ∷ v)) × IsPart 10 u × IsPart 19 v
unfolding private_to_names
private_to_names-splits [] u v h = absurd (none-ne-some (u, v) h)
private_to_names-splits (c ∷ cs) u v h = elim (Option-cases (split_at_hash cs)) [
  | inl e ↦ absurd (none-ne-some (u, v) (sym (ap (check_names c) e) ∙ h))
  | inr ((a, b), e) ↦
      let (p, (q, l, m)) = check_names-IsFit c a b (u, v) (sym (ap (check_names c) e) ∙ h) in
      (
        ap (λ k. k ∷ cs) q ∙ ap (λ k. 35 ∷ k) (split-splits cs a b e ∙ ap (λ r. r.0 ++ 35 ∷ r.1) p),
        subst (λ r. (1 ≤ length r.0) × (length r.0 ≤ 10) × (is_legal r.0 ≡ true)) p l,
        subst (λ r. (1 ≤ length r.1) × (length r.1 ≤ 19) × (is_legal r.1 ≡ true)) p m,
      )
]

-- G_private_to_names takes a private group name apart into two names exactly if it is '#', the
-- first, '#' and the second, where the first has 1 to 10 and the second 1 to 19 characters, each
-- above '#' and at most '~'.
pub private_to_names_iff :
    (n u v : Name)
    → (private_to_names n ≡ some (u, v)) ↔ ((n ≡ 35 ∷ (u ++ 35 ∷ v)) × IsPart 10 u × IsPart 19 v)
unfolding private_to_names
private_to_names_iff n u v = (
  private_to_names-splits n u v,
  λ (e, l, m).
      ap private_to_names e
      ∙ ap (check_names 35) (split-legal u v l.2)
      ∙ check_names-fit 35 u v (refl, l, m),
)
