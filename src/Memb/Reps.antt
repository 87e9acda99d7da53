-- ===== src/Memb/Reps.antt =====
-- daemon/membership.c, `reps_info`: `Insert_rep` and `Smallest_rep`.
pub mod Segments
use in5020_distribuerte_syst.Prelude.{
  ℕ, zero, suc, ◌+◌, ◌-◌, ◌≡◌, Bool, true, false, ◌&&◌, ◌||◌, ltb, ◌==◌, if◌then◌else◌, List, [],
  ◌∷◌, Option, none, some, take, set, get_or,
}
use in5020_distribuerte_syst.Conf.{Proc, proc_by_id}

abbrev pub max_reps : ℕ
max_reps = 25

abbrev pub potential_rep : ℕ
potential_rep = 0

abbrev pub seg_rep : ℕ
seg_rep = 1

abbrev pub ring_rep : ℕ
ring_rep = 2

-- `rep_info`; `kind` is its `type`.
pub record RepInfo : Type 0 where
  pub proc_id : ℕ
  pub kind : ℕ
  pub seg_index : ℕ

pub record RepsInfo : Type 0 where
  pub num_reps : ℕ
  pub rep_index : ℕ
  pub reps : List RepInfo

abbrev pub no_rep : RepInfo
no_rep = record { proc_id = 0; kind = 0; seg_index = 0 }

-- The representatives proper.
abbrev pub active : RepsInfo → List RepInfo
active r = take r.num_reps r.reps

-- What a pass over the array does: `go_on` where no `return` is reached.
pub data Pass : Type 0 where
  go_on : Pass
  return : Bool → List RepInfo → Pass

-- The pass goes on behind an entry that it leaves as it is.
abbrev pub behind : RepInfo → Pass → Pass
behind x go_on = go_on
behind x (return b xs) = return b (x ∷ xs)

-- The three loops of `Insert_rep`, over the first `n` entries; `p` is the process of the new one.
pub pass_potential : ℕ → List RepInfo → Proc → Pass
pass_potential zero xs p = go_on
pass_potential (suc n) [] p = go_on
pass_potential (suc n) (x ∷ xs) p =
    let rest = pass_potential n xs p in
    if x.seg_index == p.seg_index then return false (x ∷ xs) else behind x rest

pub pass_seg : ℕ → List RepInfo → Proc → Pass
pass_seg zero xs p = go_on
pass_seg (suc n) [] p = go_on
pass_seg (suc n) (x ∷ xs) p =
    let rest = pass_seg n xs p in
    if x.seg_index == p.seg_index
    then (if x.kind == potential_rep
        then return true (record x { kind = seg_rep; proc_id = p.id } ∷ xs)
        else if x.kind == seg_rep
        then (if x.proc_id == p.id then return false (x ∷ xs) else behind x rest)
        else if (x.kind == ring_rep) && (x.proc_id == p.id)
        then return true (record x { kind = seg_rep } ∷ xs)
        else behind x rest)
    else behind x rest

pub pass_ring : ℕ → List RepInfo → Proc → Pass
pass_ring zero xs p = go_on
pass_ring (suc n) [] p = go_on
pass_ring (suc n) (x ∷ xs) p =
    let rest = pass_ring n xs p in
    if x.seg_index == p.seg_index
    then (if x.kind == potential_rep
        then return true (record x { kind = ring_rep; proc_id = p.id } ∷ xs)
        else if x.kind == seg_rep
        then (if x.proc_id == p.id
            then return true (record x { kind = ring_rep } ∷ xs)
            else behind x rest)
        else if (x.kind == ring_rep) && (x.proc_id == p.id)
        then return false (x ∷ xs)
        else behind x rest)
    else behind x rest

-- `none` is the exit on an unknown type.
pub pass_of : RepsInfo → RepInfo → Proc → Option Pass
unfolding pass_potential pass_seg pass_ring
pass_of r rep p =
    if rep.kind == potential_rep
    then some (pass_potential r.num_reps r.reps p)
    else if rep.kind == seg_rep
    then some (pass_seg r.num_reps r.reps p)
    else if rep.kind == ring_rep
    then some (pass_ring r.num_reps r.reps p)
    else none

pub finish : RepsInfo → RepInfo → Pass → Bool × RepsInfo
finish r rep (return b xs) = (b, record r { reps = xs })
finish r rep go_on =
    if r.num_reps == max_reps
    then (false, r)
    else (true, record r { reps = set r.reps r.num_reps rep; num_reps = suc r.num_reps })

-- `Insert_rep`, with its result as a truth value; `none` is an exit, on a representative that the
-- configuration does not have or whose type is unknown.
unfoldable pub insert_rep : List Proc → RepsInfo → RepInfo → Option (Bool × RepsInfo)
unfolding pass_of finish
insert_rep table r rep = elim (proc_by_id table rep.proc_id) [
  | none ↦ none
  | some (k, p) ↦ elim (pass_of r rep p) [ none ↦ none | some pass ↦ some (finish r rep pass) ]
]

-- The index of the process in its segment, for `Conf_proc_by_id` without a test of its result: an
-- unknown id leaves the local variable as it was, which the model shows as `none`.
pub place_in_seg : List Proc → ℕ → Option ℕ
place_in_seg table id = elim (proc_by_id table id) [
  | none ↦ none
  | some (k, p) ↦ some p.index_in_seg
]

-- One round of `Smallest_rep`: the better of two entries is the second. `none` is the exit on a
-- current entry that is neither of a segment nor of a ring, or an unknown id.
pub is_smaller : List Proc → RepInfo → RepInfo → Option Bool
unfolding place_in_seg
is_smaller table c x =
    if c.kind == seg_rep
    then some ((x.kind == seg_rep) && ltb x.seg_index c.seg_index)
    else if c.kind == ring_rep
    then (if x.kind == ring_rep
        then (if ltb x.seg_index c.seg_index
            then some true
            else if x.seg_index == c.seg_index
            then elim (place_in_seg table c.proc_id) [
              | none ↦ none
              | some j ↦ elim (place_in_seg table x.proc_id) [
                | none ↦ none
                | some i ↦ some (ltb i j)
              ]
            ]
            else some false)
        else some (x.kind == seg_rep))
    else none

pub smallest_rep_from : List Proc → List RepInfo → ℕ → ℕ → ℕ → Option ℕ
smallest_rep_from table xs zero i current = some current
smallest_rep_from table xs (suc n) i current =
    elim (is_smaller table (get_or xs current no_rep) (get_or xs i no_rep)) [
      | none ↦ none
      | some better ↦ smallest_rep_from table xs n (suc i) (if better then i else current)
    ]

-- `Smallest_rep`: the id and its index.
unfoldable pub smallest_rep : List Proc → RepsInfo → Option (ℕ × ℕ)
unfolding smallest_rep_from is_smaller
smallest_rep table r = elim (smallest_rep_from table r.reps (r.num_reps - 1) 1 0) [
  | none ↦ none
  | some current ↦ some ((get_or r.reps current no_rep).proc_id, current)
]
