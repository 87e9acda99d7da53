-- ===== src/Prelude/Perms.antt =====
-- Predicates on all entries of a list, and lists whose entries have different keys: both stay where
-- the list is permuted.
use Prim.Native.Nat.{ℕ, suc, ◌+◌}
use in5020_distribuerte_syst.Prelude.Lists.{length}
use mathlib.Core.Path.{◌≡◌, refl, sym, ap, ◌∙◌, subst}
use mathlib.Core.Logic.{◌≢◌}
use mathlib.Core.List.{List, [], ◌∷◌, ◌++◌, map, Permᴰ, append_assoc}
use mathlib.Core.List.Permᴰ as PermD
use native.Mathlib.Omega.{arith}

module _ {ℓ} {A : Type ℓ} where
  abbrev pub All {κ} : (A → Type κ) → List A → Type κ
  All P [] = Unit
  All P (x ∷ xs) = P x × All P xs

  pub All-perm {κ} : (P : A → Type κ) {xs ys : List A} → Permᴰ xs ys → All P xs → All P ys
  All-perm P Permᴰ.nil a = a
  All-perm P (Permᴰ.cons e d) a = (subst P e a.0, All-perm P d a.1)
  All-perm P (Permᴰ.swap e f) (a, (b, r)) = (subst P f b, (subst P e a, r))
  All-perm P (Permᴰ.trans d e) a = All-perm P e (All-perm P d a)

  pub All-imp {κ μ} :
      {P : A → Type κ} {Q : A → Type μ}
      → ((x : A) → P x → Q x)
      → (xs : List A) → All P xs
      → All Q xs
  All-imp f [] a = tt
  All-imp f (x ∷ xs) a = (f x a.0, All-imp f xs a.1)

  pub All-both {κ μ ν} :
      {P : A → Type κ} {Q : A → Type μ} {R : A → Type ν} (xs : List A)
      → All P xs
      → All Q xs
      → ((x : A) → P x → Q x → R x)
      → All R xs
  All-both [] a b f = tt
  All-both (x ∷ xs) a b f = (f x a.0 b.0, All-both xs a.1 b.1 f)

  pub All-append {κ} : (P : A → Type κ) (xs ys : List A) → All P xs → All P ys → All P (xs ++ ys)
  All-append P [] ys a b = b
  All-append P (x ∷ xs) ys a b = (a.0, All-append P xs ys a.1 b)

  pub All-of {κ} : (P : A → Type κ) → ((x : A) → P x) → (xs : List A) → All P xs
  All-of P f [] = tt
  All-of P f (x ∷ xs) = (f x, All-of P f xs)

  -- A function that leaves all entries as they are.
  pub map_fixed : (f : A → A) (xs : List A) → All (λ x. f x ≡ x) xs → map f xs ≡ xs
  map_fixed f [] a = refl
  map_fixed f (x ∷ xs) a = λ i. a.0 i ∷ map_fixed f xs a.1 i

  pub All-map {κ μ} :
      {P : A → Type κ} (Q : A → Type μ) (f : A → A)
      → ((x : A) → P x → Q (f x))
      → (xs : List A) → All P xs
      → All Q (map f xs)
  All-map Q f h [] a = tt
  All-map Q f h (x ∷ xs) a = (h x a.0, All-map Q f h xs a.1)

  pub length-perm : {xs ys : List A} → Permᴰ xs ys → length xs ≡ length ys
  length-perm Permᴰ.nil = refl
  length-perm (Permᴰ.cons e d) = ap suc (length-perm d)
  length-perm (Permᴰ.swap e f) = refl
  length-perm (Permᴰ.trans d e) = length-perm d ∙ length-perm e

  -- The two ends of a list whose middle is permuted.
  pub rotate-perm : (us vs ws : List A) → Permᴰ (us ++ (vs ++ ws)) (vs ++ (us ++ ws))
  rotate-perm us vs ws =
      subst (λ l. Permᴰ l (vs ++ (us ++ ws))) (append_assoc us vs ws)
        (subst (Permᴰ ((us ++ vs) ++ ws)) (append_assoc vs us ws)
          (PermD.append_right ws (PermD.append_comm us vs)))

module _ {ℓ κ} {A : Type ℓ} {K : Type κ} (key : A → K) where
  -- No two entries have the same key.
  abbrev pub Apart : List A → Type κ
  Apart [] = Unit
  Apart (x ∷ xs) = All (λ y. key x ≢ key y) xs × Apart xs

  pub Apart-perm : {xs ys : List A} → Permᴰ xs ys → Apart xs → Apart ys
  Apart-perm Permᴰ.nil a = a
  Apart-perm (Permᴰ.cons {b = b} {l₂ = l₂} e d) (a, r) =
      (subst (λ x. All (λ y. key x ≢ key y) l₂) e (All-perm _ d a), Apart-perm d r)
  Apart-perm (Permᴰ.swap {l = l} e f) ((ab, a), (b, r)) = (
    (λ p. ab (ap key e ∙ sym p ∙ sym (ap key f)), subst (λ x. All (λ y. key x ≢ key y) l) f b),
    (subst (λ x. All (λ y. key x ≢ key y) l) e a, r),
  )
  Apart-perm (Permᴰ.trans d e) a = Apart-perm e (Apart-perm d a)

module _ {ℓ} {A : Type ℓ} (f : A → ℕ) where
  abbrev pub sum : List A → ℕ
  sum [] = 0
  sum (x ∷ xs) = f x + sum xs

  pub sum-perm : {xs ys : List A} → Permᴰ xs ys → sum xs ≡ sum ys
  sum-perm Permᴰ.nil = refl
  sum-perm (Permᴰ.cons e d) = λ i. f (e i) + sum-perm d i
  sum-perm (Permᴰ.swap {a = a} {b = b} {a' = a'} {b' = b'} {l = l} e g) =
      let p : f a ≡ f b' = ap f e in let q : f b ≡ f a' = ap f g in omega (arith, p, q)
  sum-perm (Permᴰ.trans d e) = sum-perm d ∙ sum-perm e

module _ {ℓ κ} {A : Type ℓ} {B : Type κ} (f : A → List B) where
  abbrev pub gather : List A → List B
  gather [] = []
  gather (x ∷ xs) = f x ++ gather xs

  pub gather-perm : {xs ys : List A} → Permᴰ xs ys → Permᴰ (gather xs) (gather ys)
  gather-perm Permᴰ.nil = Permᴰ.nil
  gather-perm (Permᴰ.cons {a = a} {b = b} {l₁ = l₁} {l₂ = l₂} e d) =
      subst (λ z. Permᴰ (f a ++ gather l₁) (f z ++ gather l₂)) e
        (PermD.append_left (f a) (gather-perm d))
  gather-perm (Permᴰ.swap {a = a} {b = b} {a' = a'} {b' = b'} {l = l} e g) =
      subst (λ z. Permᴰ (f a ++ (f b ++ gather l)) (f z ++ (f b' ++ gather l))) g
        (subst (λ z. Permᴰ (f a ++ (f b ++ gather l)) (f b ++ (f z ++ gather l))) e
          (rotate-perm (f a) (f b) (gather l)))
  gather-perm (Permᴰ.trans d e) = Permᴰ.trans (gather-perm d) (gather-perm e)
