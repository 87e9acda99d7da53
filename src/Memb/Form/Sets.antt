-- ===== src/Memb/Form/Sets.antt =====
-- daemon/membership.c: the set that `Fill_form1` collects with `Insert_member`.
use in5020_distribuerte_syst.Prelude.{
  ℕ, suc, ◌+◌, ◌≡◌, ◌≤◌, refl, sym, ap, ◌∙◌, true, false, ◌||◌, ◌==◌, Bool-cases, inl, inr, List,
  [], ◌∷◌, take, length, ◌++◌, arith,
}
use in5020_distribuerte_syst.Memb.Members.{MembersInfo, active, insert_member, max_procs_ring}
use in5020_distribuerte_syst.Memb.Members.Insert.{
  IsValid, IsDistinct, contains, add_member, length-take, insert_member-IsValid,
  insert_member_refines,
}
use in5020_distribuerte_syst.Memb.Form.Fill.{insert_all, no_members}

-- The ids added in order.
pub add_all : List ℕ → List ℕ → List ℕ
add_all xs [] = xs
add_all xs (y ∷ ys) = add_all (add_member xs y) ys

pub insert_all_refines :
    (ys : List ℕ) (m : MembersInfo)
    → IsValid m
    → IsValid (insert_all ys m) × (active (insert_all ys m) ≡ add_all (active m) ys)
unfolding insert_all add_all
insert_all_refines [] m v = (v, refl)
insert_all_refines (y ∷ ys) m v =
    let (w, e) = insert_all_refines ys (insert_member m y).1 (insert_member-IsValid m y v) in
    (w, e ∙ ap (λ xs. add_all xs ys) (insert_member_refines m y v).0)

pub no_members-IsValid : IsValid no_members
no_members-IsValid = record { room = refl; fits = omega arith }

pub active-length : (m : MembersInfo) → IsValid m → length (active m) ≡ m.num_members
active-length m v = length-take m.num_members m.members (omega (arith, v.room, v.fits))

-- An id behind a list of distinct ids is not among them.
behind-contains :
    (xs : List ℕ) (y : ℕ) (ys : List ℕ) → IsDistinct (xs ++ (y ∷ ys)) → contains xs y ≡ false
behind-contains [] y ys d = refl
behind-contains (x ∷ xs) y ys (h, d) = ground (arith, in_middle xs, h, behind-contains xs y ys d)
  where
    in_middle : (zs : List ℕ) → contains (zs ++ (y ∷ ys)) y ≡ true
    in_middle [] = ground arith
    in_middle (z ∷ zs) = ground (arith, in_middle zs)

append_assoc : (xs : List ℕ) (y : ℕ) (ys : List ℕ) → (xs ++ (y ∷ [])) ++ ys ≡ xs ++ (y ∷ ys)
append_assoc [] y ys = refl
append_assoc (x ∷ xs) y ys = ap (λ l. x ∷ l) (append_assoc xs y ys)

length-behind :
    (xs : List ℕ) (y : ℕ) (ys : List ℕ) → length (xs ++ (y ∷ ys)) ≡ suc (length xs + length ys)
length-behind [] y ys = omega arith
length-behind (x ∷ xs) y ys = omega (arith, length-behind xs y ys)

append_none : (zs : List ℕ) → zs ++ [] ≡ zs
append_none [] = refl
append_none (z ∷ zs) = ap (λ l. z ∷ l) (append_none zs)

-- Distinct ids that fit are all added.
pub add_all-distinct :
    (ys xs : List ℕ)
    → IsDistinct (xs ++ ys)
    → length (xs ++ ys) ≤ max_procs_ring
    → add_all xs ys ≡ xs ++ ys
unfolding add_all
add_all-distinct [] xs d l = sym (append_none xs)
add_all-distinct (y ∷ ys) xs d l =
    let absent = behind-contains xs y ys d in
    let room : (length xs == max_procs_ring) ≡ false = ground (arith, l, length-behind xs y ys) in
    let assoc = append_assoc xs y ys in
    let added : add_member xs y ≡ xs ++ (y ∷ []) = rw (absent, room) refl in
    ap (λ zs. add_all zs ys) added
    ∙ add_all-distinct ys (xs ++ (y ∷ [])) (rw assoc d) (rw assoc l)
    ∙ assoc

pub append_append : (xs ys zs : List ℕ) → (xs ++ ys) ++ zs ≡ xs ++ (ys ++ zs)
append_append [] ys zs = refl
append_append (x ∷ xs) ys zs = ap (λ l. x ∷ l) (append_append xs ys zs)

-- What is there stays in front.
pub add_all-front : (ys xs : List ℕ) → (zs : List ℕ) × (add_all xs ys ≡ xs ++ zs)
unfolding add_all
add_all-front [] xs = ([], sym (append_none xs))
add_all-front (y ∷ ys) xs =
    let (zs, e) = add_all-front ys (add_member xs y) in
    elim (Bool-cases (contains xs y || (length xs == max_procs_ring))) [
      | inl full ↦ (zs, e ∙ ap (λ l. l ++ zs) (unchanged full))
      | inr fits ↦ (y ∷ zs, e ∙ ap (λ l. l ++ zs) (longer fits) ∙ append_append xs (y ∷ []) zs)
    ]
  where
    unchanged : (contains xs y || (length xs == max_procs_ring)) ≡ true → add_member xs y ≡ xs
    unchanged h = rw h refl

    longer :
        (contains xs y || (length xs == max_procs_ring)) ≡ false → add_member xs y ≡ xs ++ (y ∷ [])
    longer h = rw h refl

pub take-front : (xs ys : List ℕ) → take (length xs) (xs ++ ys) ≡ xs
take-front [] ys = refl
take-front (x ∷ xs) ys = ap (λ l. x ∷ l) (take-front xs ys)
