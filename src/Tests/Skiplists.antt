-- ===== src/Tests/Skiplists.antt =====
-- A list in place of a skip list, with the laws that the groups rely on.
use mathlib.Core.List.{Permᴰ}
use mathlib.Core.List.Permᴰ as PermD
use mathlib.Core.Option.{none-ne-some, some-injective}
use in5020_distribuerte_syst.Prelude.{
  ◌≡◌, ◌≢◌, refl, sym, ap, ◌∙◌, subst, List, [], ◌∷◌, ◌++◌, Option, none, some, All, gather,
  gather-perm,
}
use in5020_distribuerte_syst.Groups.{Skiplist}

-- A list with the new element in front, searched from there.
module _ {A K : Type 0} (key : A → K) (dec : Discrete K) where
  abbrev pub find_in : List A → K → Option A
  find_in [] k = none
  find_in (x ∷ xs) k =
      let rest = find_in xs k in elim (dec (key x) k) [ yes _ ↦ some x | no _ ↦ rest ]

  abbrev pub unless : K → A → List A
  unless k x = elim (dec (key x) k) [ yes _ ↦ [] | no _ ↦ x ∷ [] ]

  abbrev pub erase_in : List A → K → List A
  erase_in xs k = gather (unless k) xs

  pub find_in-some :
      (xs : List A) (k : K) (a : A)
      → find_in xs k ≡ some a
      → (key a ≡ k) × (rest : List A) × Permᴰ xs (a ∷ rest)
  find_in-some [] k a h = absurd (none-ne-some a h)
  find_in-some (x ∷ xs) k a h = pick (dec (key x) k) h (find_in-some xs k a)
    where
      pick :
          (o : Dec (key x ≡ k))
          → elim o [ yes _ ↦ some x | no _ ↦ find_in xs k ] ≡ some a
          → (find_in xs k ≡ some a → (key a ≡ k) × (rest : List A) × Permᴰ xs (a ∷ rest))
          → (key a ≡ k) × (rest : List A) × Permᴰ (x ∷ xs) (a ∷ rest)
      pick (yes p) e ih =
          let q = some-injective x a e in (ap key (sym q) ∙ p, xs, Permᴰ.cons q (PermD.refl xs))
      pick (no _) e ih =
          let (same, rest, p) = ih e in
          (same, x ∷ rest, Permᴰ.trans (Permᴰ.cons refl p) (Permᴰ.swap refl refl))

  pub find_in-none : (xs : List A) (k : K) → find_in xs k ≡ none → All (λ a. key a ≢ k) xs
  find_in-none [] k h = tt
  find_in-none (x ∷ xs) k h = pick (dec (key x) k) h (find_in-none xs k)
    where
      pick :
          (o : Dec (key x ≡ k))
          → elim o [ yes _ ↦ some x | no _ ↦ find_in xs k ] ≡ none
          → (find_in xs k ≡ none → All (λ a. key a ≢ k) xs)
          → All (λ a. key a ≢ k) (x ∷ xs)
      pick (yes p) e ih = absurd (none-ne-some x (sym e))
      pick (no n) e ih = (n, ih e)

  unless-same : (k : K) (x : A) → key x ≡ k → unless k x ≡ []
  unless-same k x p = pick (dec (key x) k)
    where
      pick : (o : Dec (key x ≡ k)) → elim o [ yes _ ↦ [] | no _ ↦ x ∷ [] ] ≡ []
      pick (yes _) = refl
      pick (no n) = absurd (n p)

  unless-other : (k : K) (x : A) → key x ≢ k → unless k x ≡ x ∷ []
  unless-other k x n = pick (dec (key x) k)
    where
      pick : (o : Dec (key x ≡ k)) → elim o [ yes _ ↦ [] | no _ ↦ x ∷ [] ] ≡ x ∷ []
      pick (yes p) = absurd (n p)
      pick (no _) = refl

  erase_in-others : (k : K) (xs : List A) → All (λ b. k ≢ key b) xs → erase_in xs k ≡ xs
  erase_in-others k [] a = refl
  erase_in-others k (x ∷ xs) a =
      ap (λ l. l ++ erase_in xs k) (unless-other k x (λ p. a.0 (sym p)))
      ∙ ap (λ l. x ∷ l) (erase_in-others k xs a.1)

  pub erase_in-perm :
      (xs : List A) (a : A) (rest : List A)
      → Permᴰ xs (a ∷ rest)
      → All (λ b. key a ≢ key b) rest
      → Permᴰ (erase_in xs (key a)) rest
  erase_in-perm xs a rest p n =
      subst (Permᴰ (erase_in xs (key a)))
        (ap (λ l. l ++ erase_in rest (key a)) (unless-same (key a) a refl)
          ∙ erase_in-others (key a) rest n)
        (gather-perm (unless (key a)) p)

  abbrev pub listed : Skiplist key
  listed = record {
    find = find_in;
    put = λ xs a. a ∷ xs;
    erase = erase_in;
    find-some = find_in-some;
    find-none = find_in-none;
    erase-perm = erase_in-perm;
    put-perm = λ xs a _. PermD.refl (a ∷ xs);
  }
