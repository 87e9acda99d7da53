-- ===== src/Memb/Regular/Transitional.antt =====
-- daemon/membership.c: the members that `Memb_transitional` chooses.
use mathlib.Core.List.{append_assoc, append-nil}
use in5020_distribuerte_syst.Prelude.{
  ℕ, ◌≡◌, refl, sym, ap, ◌∙◌, true, if◌then◌else◌, List, [], ◌∷◌, ◌++◌, map, some, Bool-cases, inl,
  inr,
}
use in5020_distribuerte_syst.Conf.{Proc, Segment, proc_by_id, append_id_to_seg, leader}
use in5020_distribuerte_syst.Memb.Members.{active}
use in5020_distribuerte_syst.Memb.State.{Daemon}
use in5020_distribuerte_syst.Memb.Regular.{
  is_in, chosen_in_seg, chosen, pending_ids, transitional_memb,
}

-- The processes among the ids, in order.
unfoldable pub among : List ℕ → List Proc → List Proc
among ids [] = []
among ids (p ∷ ps) = if is_in p.id ids then p ∷ among ids ps else among ids ps

unfoldable pub among_segment : List ℕ → Segment → Segment
unfolding among
among_segment ids s = record s { procs = among ids s.procs }

-- The table finds each process by its id.
unfoldable pub AllKnown : List Proc → List Proc → Type 0
AllKnown table [] = Unit
AllKnown table (p ∷ ps) = ((k : ℕ) × (proc_by_id table p.id ≡ some (k, p))) × AllKnown table ps

unfoldable pub IsKnown : List Proc → List Segment → Type 0
unfolding AllKnown
IsKnown table [] = Unit
IsKnown table (s ∷ ss) = AllKnown table s.procs × IsKnown table ss

chosen_in_seg-among :
    (table : List Proc) (ids : List ℕ) (ps : List Proc) (to : Segment)
    → AllKnown table ps
    → chosen_in_seg table ids ps to ≡ some (record to { procs = to.procs ++ among ids ps })
unfolding chosen_in_seg among AllKnown append_id_to_seg
chosen_in_seg-among table ids [] to h =
    ap (λ xs. some (record to { procs = xs })) (sym (append-nil to.procs))
chosen_in_seg-among table ids (p ∷ ps) to ((k, e), h) = elim (Bool-cases (is_in p.id ids)) [
  | inl there ↦
      rw (there, e, append_id_to_seg)
        (chosen_in_seg-among table ids ps (record to { procs = to.procs ++ (p ∷ []) }) h
          ∙ ap (λ xs. some (record to { procs = xs }))
              (append_assoc to.procs (p ∷ []) (among ids ps)))
  | inr missing ↦ rw missing (chosen_in_seg-among table ids ps to h)
]

chosen-among :
    (table : List Proc) (ids : List ℕ) (ss : List Segment)
    → IsKnown table ss
    → chosen table ids ss ≡ some (map (among_segment ids) ss)
unfolding chosen IsKnown among_segment
chosen-among table ids [] h = refl
chosen-among table ids (s ∷ ss) (k, h) =
    rw
      (
        chosen_in_seg-among table ids s.procs (record s { procs = [] }) k,
        chosen-among table ids ss h,
      )
      refl

-- Where the table finds each process of the configuration by its id, and one of them is pending,
-- Memb_transitional returns, and puts into the transitional membership exactly the processes of the
-- configuration that are pending, and into the commit membership exactly those that are members,
-- each in its segment and in the order of the configuration; the first one gives the transitional
-- membership its id.
pub transitional_memb-among :
    (d : Daemon) (first : ℕ)
    → IsKnown d.table d.cn.segments
    → leader (record d.trans_membership {
      segments = map (among_segment (pending_ids d.commit_set)) d.cn.segments;
    })
      ≡ some first
    → (d' : Daemon) × (transitional_memb d ≡ some d')
      × (d'.trans_membership.segments
          ≡ map (among_segment (pending_ids d.commit_set)) d.cn.segments)
      × (d'.commit_membership.segments ≡ map (among_segment (active d.commit_set)) d.cn.segments)
      × (d'.trans_memb_id.proc_id ≡ first)
unfolding transitional_memb
transitional_memb-among d first h e = (
  record d {
    transitional = true;
    trans_membership = record d.trans_membership {
      segments = map (among_segment (pending_ids d.commit_set)) d.cn.segments;
    };
    trans_memb_id = record { proc_id = first; time = d.f_trans_memb_time };
    commit_membership = record d.commit_membership {
      segments = map (among_segment (active d.commit_set)) d.cn.segments;
    };
  },
  rw
      (
        chosen-among d.table (pending_ids d.commit_set) d.cn.segments h,
        e,
        chosen-among d.table (active d.commit_set) d.cn.segments h,
      )
      refl,
  refl,
  refl,
  refl,
)
