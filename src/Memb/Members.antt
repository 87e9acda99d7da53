-- ===== src/Memb/Members.antt =====
-- daemon/membership.c, `members_info`: `Insert_member`, `Smallest_member` and `Sort_members`.
pub mod Insert
pub mod Smallest
pub mod Sort
use in5020_distribuerte_syst.Prelude.{
  ℕ, zero, suc, ◌+◌, ◌-◌, ◌≡◌, Bool, true, false, ◌&&◌, ◌||◌, ltb, ◌==◌, if◌then◌else◌, List, [],
  ◌∷◌, Option, none, some, take, set, get_or,
}
use in5020_distribuerte_syst.Conf.{Proc, proc_by_id}

abbrev pub max_procs_ring : ℕ
max_procs_ring = 128

-- The array holds `num_members` members, and then `num_pending` ids that a form token has yet to
-- reach.
pub record MembersInfo : Type 0 where
  pub num_members : ℕ
  pub num_pending : ℕ
  pub members : List ℕ

-- The members proper.
abbrev pub active : MembersInfo → List ℕ
active m = take m.num_members m.members

-- The loop of `Insert_member` over the first `n` entries.
abbrev pub listed : ℕ → List ℕ → ℕ → Bool
listed zero xs id = false
listed (suc n) [] id = false
listed (suc n) (x ∷ xs) id = if x == id then true else listed n xs id

-- `Insert_member`, with its result as a truth value. A full structure ignores the new member.
unfoldable pub insert_member : MembersInfo → ℕ → Bool × MembersInfo
insert_member m id =
    if listed m.num_members m.members id
    then (false, m)
    else if m.num_members == max_procs_ring
    then (false, m)
    else (
      true,
      record m { members = set m.members m.num_members id; num_members = suc m.num_members },
    )

-- The order of the configuration.
abbrev pub precedes : Proc → Proc → Bool
precedes p q =
    ltb p.seg_index q.seg_index || (p.seg_index == q.seg_index && ltb p.index_in_seg q.index_in_seg)

-- The loop of `Smallest_member` at index `i`, with `n` rounds left; `none` is the exit on an id
-- that the configuration does not have.
pub smallest_from : List Proc → List ℕ → ℕ → ℕ → ℕ → Proc → Option ℕ
smallest_from table xs zero i current curr_proc = some current
smallest_from table xs (suc n) i current curr_proc = elim (proc_by_id table (get_or xs i 0)) [
  | none ↦ none
  | some (k, p) ↦
      let better = smallest_from table xs n (suc i) i p in
      let same = smallest_from table xs n (suc i) current curr_proc in
      if precedes p curr_proc then better else same
]

-- `Smallest_member`: the id and its index. The first entry is read whatever the count is.
unfoldable pub smallest_member : List Proc → MembersInfo → Option (ℕ × ℕ)
unfolding smallest_from
smallest_member table m = elim (proc_by_id table (get_or m.members 0 0)) [
  | none ↦ none
  | some (k, p) ↦ elim (smallest_from table m.members (m.num_members - 1) 1 0 p) [
    | none ↦ none
    | some current ↦ some (get_or m.members current 0, current)
  ]
]

-- The loop of `Sort_members`: `n` rounds are left, `i` is the index that is written, and `temp` the
-- copy that shrinks.
pub sort_from : List Proc → ℕ → ℕ → MembersInfo → List ℕ → Option (List ℕ)
sort_from table zero i temp xs = some xs
sort_from table (suc n) i temp xs = elim (smallest_member table temp) [
  | none ↦ none
  | some (id, index) ↦
      let count = temp.num_members - 1 in
      sort_from table n (suc i)
        (record temp {
          num_members = count;
          members = set temp.members index (get_or temp.members count 0);
        })
        (set xs i (get_or temp.members index 0))
]

unfoldable pub sort_members : List Proc → MembersInfo → Option MembersInfo
unfolding sort_from smallest_member
sort_members table m = elim (sort_from table m.num_members 0 m m.members) [
  | none ↦ none
  | some xs ↦ some (record m { members = xs })
]
