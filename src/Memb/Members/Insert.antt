-- ===== src/Memb/Members/Insert.antt =====
-- What `Insert_member` does to the set of members.
use in5020_distribuerte_syst.Prelude.{
  ℕ, zero, suc, ◌≡◌, ◌≤◌, refl, ap, Bool, true, false, not, ◌||◌, ◌==◌, if◌then◌else◌, Bool-cases,
  inl, inr, List, [], ◌∷◌, take, length, ◌++◌, arith, length-set, take-set,
}
use in5020_distribuerte_syst.Memb.Members.{
  MembersInfo, active, listed, insert_member, max_procs_ring,
}

-- The counts stay within the array.
pub record IsValid (m : MembersInfo) : Type 0 where
  pub room : length m.members ≡ max_procs_ring
  pub fits : m.num_members ≤ max_procs_ring

abbrev pub contains : List ℕ → ℕ → Bool
contains [] id = false
contains (x ∷ xs) id = if x == id then true else contains xs id

-- A set of at most 128 members, in the order of arrival.
abbrev pub add_member : List ℕ → ℕ → List ℕ
add_member xs id = if contains xs id || (length xs == max_procs_ring) then xs else xs ++ id ∷ []

-- No id twice.
abbrev pub IsDistinct : List ℕ → Type 0
IsDistinct [] = Unit
IsDistinct (x ∷ xs) = (contains xs x ≡ false) × IsDistinct xs

listed-contains : (n : ℕ) (xs : List ℕ) (id : ℕ) → listed n xs id ≡ contains (take n xs) id
listed-contains zero xs id = refl
listed-contains (suc n) [] id = refl
listed-contains (suc n) (x ∷ xs) id = ground (arith, listed-contains n xs id)

pub length-take : (n : ℕ) (xs : List ℕ) → n ≤ length xs → length (take n xs) ≡ n
length-take zero xs h = refl
length-take (suc n) [] h = absurd (omega arith)
length-take (suc n) (x ∷ xs) h = ap suc (length-take n xs (omega arith))

pub insert_member-IsValid : (m : MembersInfo) (id : ℕ) → IsValid m → IsValid (insert_member m id).1
unfolding insert_member
insert_member-IsValid m id v = ground (arith, length-set m.members m.num_members id)

contains-append :
    (xs : List ℕ) (y id : ℕ) → contains (xs ++ y ∷ []) id ≡ (contains xs id || (y == id))
contains-append [] y id = ground arith
contains-append (x ∷ xs) y id = ground (arith, contains-append xs y id)

pub IsDistinct-append :
    (xs : List ℕ) (id : ℕ) → IsDistinct xs → contains xs id ≡ false → IsDistinct (xs ++ id ∷ [])
IsDistinct-append [] id d h = (refl, tt)
IsDistinct-append (x ∷ xs) id d h =
    ground (arith, IsDistinct-append xs id d.1, contains-append xs id x)

add_member-IsDistinct : (xs : List ℕ) (id : ℕ) → IsDistinct xs → IsDistinct (add_member xs id)
add_member-IsDistinct xs id d = elim (Bool-cases (contains xs id)) [
  | inl h ↦ rw h d
  | inr h ↦ elim (Bool-cases (length xs == max_procs_ring)) [
    | inl k ↦ rw (h, k) d
    | inr k ↦ rw (h, k) (IsDistinct-append xs id d h)
  ]
]

-- `Insert_member` adds the id at the end unless it is there or all 128 places are taken, and
-- returns 1 exactly when it adds it.
pub insert_member_refines :
    (m : MembersInfo) (id : ℕ)
    → IsValid m
    → (active (insert_member m id).1 ≡ add_member (active m) id)
      × ((insert_member m id).0 ≡ not (contains (active m) id || (m.num_members == max_procs_ring)))
unfolding insert_member
insert_member_refines m id v = ground (
  arith,
  listed-contains m.num_members m.members id,
  length-take m.num_members m.members,
  take-set m.num_members m.members id,
)

-- On a well-formed list, `Insert_member` never lists an id twice that was listed once at most.
pub insert_member-IsDistinct :
    (m : MembersInfo) (id : ℕ)
    → IsValid m
    → IsDistinct (active m)
    → IsDistinct (active (insert_member m id).1)
insert_member-IsDistinct m id v d =
    rw ((insert_member_refines m id v).0) (add_member-IsDistinct (active m) id d)
