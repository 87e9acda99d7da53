-- ===== src/Conf.antt =====
-- daemon/configuration.h and the lookups of daemon/configuration.c. A `proc *` is the `proc` that
-- it points to: `Config_procs` changes only when a configuration is loaded. An array with its count
-- is the list of the entries in use.
pub mod Lookup
pub mod Members
use in5020_distribuerte_syst.Prelude.{
  ℕ, suc, ◌+◌, Bool, true, false, ◌||◌, ◌==◌, if◌then◌else◌, List, [], ◌∷◌, ◌++◌, Option, none,
  some, length, get_elem?,
}

-- `spread_if_info`.
pub record Interface : Type 0 where
  pub ip : ℕ
  pub port : ℕ
  pub kind : ℕ

pub record Proc : Type 0 where
  pub name : List ℕ
  pub port : ℕ
  pub seg_index : ℕ
  pub index_in_seg : ℕ
  pub id : ℕ
  pub ifc : List Interface

pub record Segment : Type 0 where
  pub bcast_address : ℕ
  pub port : ℕ
  pub procs : List Proc

-- `num_segments` is the length of the list. `num_total_procs` is that of `Config_procs`, which the
-- lookups take as an argument.
pub record Configuration : Type 0 where
  pub hash_code : ℕ
  pub segments : List Segment

pub has_ip : List Interface → ℕ → Bool
has_ip [] id = false
has_ip (f ∷ fs) id = if f.ip == id then true else has_ip fs id

-- The loop of `Conf_proc_by_id` from index `i` on; `none` is -1.
pub proc_by_id_from : ℕ → List Proc → ℕ → Option (ℕ × Proc)
proc_by_id_from i [] id = none
proc_by_id_from i (p ∷ ps) id =
    let rest = proc_by_id_from (suc i) ps id in if has_ip p.ifc id then some (i, p) else rest

-- `Conf_proc_by_id` and `Conf_proc_ref_by_id`, over `Config_procs`; the same loop over another
-- table is `Conf_prev_proc_by_id` and `Conf_config_lookup_id`.
unfoldable pub proc_by_id : List Proc → ℕ → Option (ℕ × Proc)
unfolding proc_by_id_from has_ip
proc_by_id procs id = proc_by_id_from 0 procs id

pub id_in_seg_from : ℕ → List Proc → ℕ → Option ℕ
id_in_seg_from j [] id = none
id_in_seg_from j (p ∷ ps) id =
    let rest = id_in_seg_from (suc j) ps id in if has_ip p.ifc id then some j else rest

unfoldable pub id_in_seg : Segment → ℕ → Option ℕ
unfolding id_in_seg_from has_ip
id_in_seg seg id = id_in_seg_from 0 seg.procs id

pub id_in_conf_from : ℕ → List Segment → ℕ → Option ℕ
id_in_conf_from i [] id = none
id_in_conf_from i (s ∷ ss) id =
    let rest = id_in_conf_from (suc i) ss id in
    elim (id_in_seg s id) [ some j ↦ some i | none ↦ rest ]

unfoldable pub id_in_conf : Configuration → ℕ → Option ℕ
unfolding id_in_conf_from id_in_seg
id_in_conf config id = id_in_conf_from 0 config.segments id

-- `Conf_append_id_to_seg`; `none` is -1.
unfoldable pub append_id_to_seg : List Proc → Segment → ℕ → Option Segment
append_id_to_seg table seg id = elim (proc_by_id table id) [
  | some (i, p) ↦ some (record seg { procs = seg.procs ++ p ∷ [] })
  | none ↦ none
]

pub sum_procs : List Segment → ℕ
sum_procs [] = 0
sum_procs (s ∷ ss) = length s.procs + sum_procs ss

unfoldable pub num_procs : Configuration → ℕ
unfolding sum_procs
num_procs config = sum_procs config.segments

abbrev pub num_segments : Configuration → ℕ
num_segments config = length config.segments

abbrev pub first_id : List Proc → Option ℕ
first_id [] = none
first_id (p ∷ ps) = some p.id

abbrev pub last_id : List Proc → Option ℕ
last_id [] = none
last_id (p ∷ []) = some p.id
last_id (p ∷ q ∷ ps) = last_id (q ∷ ps)

pub leader_of : List Segment → Option ℕ
leader_of [] = none
leader_of (s ∷ ss) = let rest = leader_of ss in elim s.procs [ [] ↦ rest | p ∷ ps ↦ some p.id ]

-- `Conf_leader`; `none` is the exit on an empty configuration.
unfoldable pub leader : Configuration → Option ℕ
unfolding leader_of
leader config = leader_of config.segments

-- The loop of `Conf_last` runs from the last segment down: a later segment comes first.
pub last_of : List Segment → Option ℕ
last_of [] = none
last_of (s ∷ ss) = elim (last_of ss) [ some id ↦ some id | none ↦ last_id s.procs ]

unfoldable pub last : Configuration → Option ℕ
unfolding last_of
last config = last_of config.segments

-- The segment at an index; one past the end has no processes.
abbrev pub procs_at : List Segment → ℕ → List Proc
procs_at ss i = elim (get_elem? ss i) [ some s ↦ s.procs | none ↦ [] ]

-- `Conf_seg_leader` and `Conf_seg_last`; `none` is the exit on an empty segment.
unfoldable pub seg_leader : Configuration → ℕ → Option ℕ
seg_leader config i = first_id (procs_at config.segments i)

unfoldable pub seg_last : Configuration → ℕ → Option ℕ
seg_last config i = last_id (procs_at config.segments i)

abbrev pub num_procs_in_seg : Configuration → ℕ → ℕ
num_procs_in_seg config i = length (procs_at config.segments i)
