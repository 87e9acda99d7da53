-- ===== src/Groups/Whole/Mailboxes.antt =====
-- daemon/groups.c: the mailbox of a local member is found and taken out.
use mathlib.Core.List.{Perm, Permᴰ}
use mathlib.Core.List.Perm
use mathlib.Core.List.Permᴰ as PermD
use mathlib.Core.Bool.{true≢false}
use mathlib.Core.HLevel.{⊥_prop}
use mathlib.Core.Logic.{∥∥₁_elim}
use mathlib.Core.Option.{none-ne-some, some-injective}
use in5020_distribuerte_syst.Prelude.{
  ℕ, ◌≡◌, ◌≢◌, refl, sym, ap, ◌∙◌, subst, Bool, true, false, ◌==◌, ==_iff, List, [], ◌∷◌, map,
  Option, none, some, All, All-perm, Bool-cases, Option-cases, inl, inr, if◌then◌else◌,
}
use in5020_distribuerte_syst.Groups.{drop_mbox, overwrite, keep_front, last_mbox, all_but_last}

last-perm : (c : ℕ) (cs : List ℕ) → Permᴰ (c ∷ cs) (last_mbox c cs ∷ all_but_last c cs)
last-perm c [] = PermD.refl _
last-perm c (b ∷ bs) = Permᴰ.trans (Permᴰ.cons refl (last-perm b bs)) (Permᴰ.swap refl refl)

overwrite-perm : (bs : List ℕ) → Permᴰ bs (overwrite bs)
overwrite-perm [] = Permᴰ.nil
overwrite-perm (c ∷ cs) = last-perm c cs

-- What the loop does at an entry that is, or is not, the mailbox.
at_entry : Bool → ℕ → List ℕ → Option (List ℕ) → Option (List ℕ)
at_entry c b bs rest = if c then some (overwrite bs) else keep_front b rest

drop_mbox-here :
    (m b : ℕ) (bs : List ℕ) → (b == m) ≡ true → drop_mbox m (b ∷ bs) ≡ some (overwrite bs)
unfolding at_entry
drop_mbox-here m b bs e = ap (λ c. at_entry c b bs (drop_mbox m bs)) e

drop_mbox-there :
    (m b : ℕ) (bs : List ℕ) (o : Option (List ℕ))
    → (b == m) ≡ false
    → drop_mbox m bs ≡ o
    → drop_mbox m (b ∷ bs) ≡ keep_front b o
unfolding at_entry
drop_mbox-there m b bs o e f = ap (λ c. at_entry c b bs (drop_mbox m bs)) e ∙ ap (keep_front b) f

drop_mbox-perm : (m : ℕ) (ms r : List ℕ) → drop_mbox m ms ≡ some r → Permᴰ ms (m ∷ r)
drop_mbox-perm m [] r h = absurd (none-ne-some r h)
drop_mbox-perm m (b ∷ bs) r h = elim (Bool-cases (b == m)) [
  | inl e ↦ Permᴰ.cons ((==_iff b m).0 e) (
      subst (Permᴰ bs) (some-injective _ _ (sym (drop_mbox-here m b bs e) ∙ h)) (overwrite-perm bs))
  | inr e ↦ elim (Option-cases (drop_mbox m bs)) [
    | inl n ↦ absurd (none-ne-some r (sym (drop_mbox-there m b bs none e n) ∙ h))
    | inr (q, s) ↦
        subst (λ l. Permᴰ (b ∷ bs) (m ∷ l))
          (some-injective _ _ (sym (drop_mbox-there m b bs (some q) e s) ∙ h))
          (Permᴰ.trans (Permᴰ.cons refl (drop_mbox-perm m bs q s)) (Permᴰ.swap refl refl))
  ]
]

drop_mbox-none : (m : ℕ) (ms : List ℕ) → drop_mbox m ms ≡ none → All (λ o. o ≢ some m) (map some ms)
drop_mbox-none m [] h = tt
drop_mbox-none m (b ∷ bs) h = elim (Bool-cases (b == m)) [
  | inl e ↦ absurd (none-ne-some _ (sym h ∙ drop_mbox-here m b bs e))
  | inr e ↦ elim (Option-cases (drop_mbox m bs)) [
    | inr (q, s) ↦ absurd (none-ne-some _ (sym h ∙ drop_mbox-there m b bs (some q) e s))
    | inl n ↦
        (λ q. true≢false (sym ((==_iff b m).1 (some-injective b m q)) ∙ e), drop_mbox-none m bs n)
  ]
]

All-some : (ms : List ℕ) → All (λ (o : Option ℕ). o ≢ none) (map some ms)
All-some [] = tt
All-some (m ∷ ms) = (λ e. none-ne-some m (sym e), All-some ms)

-- An entry of the mailboxes, of which the others stay.
pub drop_mbox-Returns :
    (ms : List ℕ) (o : Option ℕ) (os : List (Option ℕ))
    → Perm (map some ms) (o ∷ os)
    → (m : ℕ) × (o ≡ some m) × (r : List ℕ) × (drop_mbox m ms ≡ some r) × Perm (map some r) os
drop_mbox-Returns ms none os p =
    absurd (∥∥₁_elim p ⊥_prop (λ d. (All-perm (λ o. o ≢ none) d (All-some ms)).0 refl))
drop_mbox-Returns ms (some m) os p = elim (Option-cases (drop_mbox m ms)) [
  | inl h ↦
      absurd
        (∥∥₁_elim p ⊥_prop (λ d. (All-perm (λ o. o ≢ some m) d (drop_mbox-none m ms h)).0 refl))
  | inr (r, h) ↦ (
    m,
    refl,
    r,
    h,
    Perm.cons_inv (Perm.trans (Perm.symm ∣ PermD.map some (drop_mbox-perm m ms r h) ∣₁) p),
  )
]
