-- ===== src/Memb/Regular.antt =====
-- daemon/membership.c: `Memb_active_ptr`, `Memb_commit`, `Memb_transitional` and `Memb_regular`.
pub mod Transitional
use in5020_distribuerte_syst.Prelude.{
  ℕ, zero, suc, ◌+◌, Bool, true, false, ◌==◌, if◌then◌else◌, List, [], ◌∷◌, ◌++◌, Option, none,
  some, ◌>>=◌, take, map,
}
use in5020_distribuerte_syst.Conf.{Proc, Segment, Configuration, append_id_to_seg, leader}
use in5020_distribuerte_syst.Memb.Members.{MembersInfo, active}
use in5020_distribuerte_syst.Memb.State.{
  Daemon, Phase, op, seg, represented, gather, form, evs, start, lookup_call,
}

abbrev pub is_evs : Phase → Bool
is_evs op = false
is_evs seg = false
is_evs represented = false
is_evs gather = false
is_evs form = false
is_evs evs = true

abbrev pub active_ptr : Daemon → Configuration
active_ptr d = if is_evs d.phase then d.future_membership else d.membership

abbrev pub commit : Daemon → Daemon
commit d = record d { commit_set = d.future_commit_set }

abbrev pub is_in : ℕ → List ℕ → Bool
is_in id [] = false
is_in id (x ∷ xs) = if x == id then true else is_in id xs

-- The processes of a segment that are among the ids, appended to a segment. `none` is the exit on a
-- process that the table does not know.
pub chosen_in_seg : List Proc → List ℕ → List Proc → Segment → Option Segment
chosen_in_seg table ids [] to = some to
chosen_in_seg table ids (p ∷ ps) to =
    (if is_in p.id ids then append_id_to_seg table to p.id else some to) >>= λ to'.
    chosen_in_seg table ids ps to'

-- The loop over the segments of the configuration. Of a segment of `Trans_membership` only the
-- processes are written; the address and the port that it has otherwise are those of the
-- configuration here.
pub chosen : List Proc → List ℕ → List Segment → Option (List Segment)
unfolding chosen_in_seg
chosen table ids [] = some []
chosen table ids (s ∷ ss) = chosen_in_seg table ids s.procs (record s { procs = [] }) >>= λ t.
    chosen table ids ss >>= λ ts. some (t ∷ ts)

-- The first `num_pending` entries of `Commit_set.members`.
abbrev pub pending_ids : MembersInfo → List ℕ
pending_ids m = take m.num_pending m.members

-- `Memb_transitional`; an exit too where the transitional membership is empty.
unfoldable pub transitional_memb : Daemon → Option Daemon
unfolding chosen
transitional_memb d = do
  ts ← chosen d.table (pending_ids d.commit_set) d.cn.segments
  let trans = record d.trans_membership { segments = ts }
  first ← leader trans
  cs ← chosen d.table (active d.commit_set) d.cn.segments
  some (record d {
    transitional = true;
    trans_membership = trans;
    trans_memb_id = record { proc_id = first; time = d.f_trans_memb_time };
    commit_membership = record d.commit_membership { segments = cs };
  })

-- `Memb_regular`, but for the counts of processes and segments that GlobalStatus shows.
unfoldable pub regular_memb : Daemon → Option Daemon
unfolding start
regular_memb d = do
  let installed = record d {
    transitional = false;
    phase = op;
    status_state = op;
    membership_changes = suc d.membership_changes;
    membership = d.future_membership;
    membership_id = d.future_membership_id;
    reg_membership = d.future_membership;
    foreign_found = false;
  }
  first ← leader d.future_membership
  some (if first == d.my.id then start lookup_call d.timeouts.lookup installed else installed)
