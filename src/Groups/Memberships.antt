-- ===== src/Groups/Memberships.antt =====
-- daemon/groups.c: the transitional and regular memberships, and the groups messages between them.
use in5020_distribuerte_syst.Prelude.{
  ℕ, Bool, true, false, ◌==◌, ◌||◌, if◌then◌else◌, List, [], ◌∷◌, ◌++◌, map, Option, none, some,
  ◌>>=◌, is_none,
}
use in5020_distribuerte_syst.Conf.{Configuration, id_in_conf, num_procs}
use in5020_distribuerte_syst.Prot.Store.{MembershipId}
use in5020_distribuerte_syst.Groups.{
  Group, DaemonMembers, Env, Notice, Phase, gop, gtrans, ggather, ggt, unknown_memb_id,
  is_partitioned_daemon, remove_daemon, relabel, update_daemon_memb_ids,
}
use in5020_distribuerte_syst.Groups.Notices.{send_trans_memb, send_heavyweight_memb}
use in5020_distribuerte_syst.Groups.State.{State, Link, GroupsMess}
use in5020_distribuerte_syst.Groups.Handlers.{if_any, commit}
use in5020_distribuerte_syst.Groups.Departures.{remove_group}
use in5020_distribuerte_syst.Groups.Exchange.{
  build_new_groups_bufs, stamp_groups_bufs, discard_groups_bufs, send_groups_messages,
  is_synced_set_leader, mess_to_groups, add_to_synced_set, update_synced_set,
}

abbrev pub is_away : Configuration → DaemonMembers → Bool
is_away memb d = is_none (id_in_conf memb d.proc_id)

-- The marks of G_handle_trans_memb, and whether there is one.
abbrev pub mark_daemons : Configuration → List DaemonMembers → List DaemonMembers
mark_daemons memb ds = relabel (λ d. if is_away memb d then unknown_memb_id else d.memb_id) ds

-- `G_check_if_changed_by_cascade`, and whether G_handle_trans_memb marks a daemon.
abbrev pub is_cut : Configuration → List DaemonMembers → Bool
is_cut memb [] = false
is_cut memb (d ∷ ds) = is_away memb d || is_cut memb ds

-- A new id for a changed group.
abbrev pub restart_id : MembershipId → Bool → Group → Group
restart_id id changed g = record g {
  grp_id = record { memb_id = id; index = 1 };
  changed = changed;
}

-- G_handle_trans_memb in GOP for one group, cut or not: the transitional signal still has the old
-- id.
unfoldable pub cut_as :
    Env → Configuration → MembershipId → Group → Bool → Group × List (ℕ × Notice)
unfolding update_daemon_memb_ids send_trans_memb
cut_as e memb id g false = (g, [])
cut_as e memb id g true = (
  update_daemon_memb_ids (restart_id id true (record g { daemons = mark_daemons memb g.daemons })),
  send_trans_memb e (record g { daemons = mark_daemons memb g.daemons }),
)

abbrev pub cut_group : Env → Configuration → MembershipId → Group → Group × List (ℕ × Notice)
cut_group e memb id g = cut_as e memb id g (is_cut memb g.daemons)

abbrev pub cut_groups :
    Env → Configuration → MembershipId → List Group → List Group × List (ℕ × Notice)
cut_groups e memb id [] = ([], [])
cut_groups e memb id (g ∷ gs) =
    let r = cut_group e memb id g in let rs = cut_groups e memb id gs in (r.0 ∷ rs.0, r.1 ++ rs.1)

abbrev pub cascade_group : Configuration → Group → Group
cascade_group memb g = record g { changed = if is_cut memb g.daemons then true else g.changed }

-- G_handle_trans_memb in each state.
unfoldable pub trans_in : Env → State → Configuration → MembershipId → Phase → Option State
unfolding cut_as update_synced_set
trans_in e s memb id gop =
    let r = cut_groups e memb id s.groups in
    some (record s {
      trans_memb = memb;
      trans_memb_id = id;
      groups = r.0;
      told = s.told ++ r.1;
      phase = gtrans;
      synced = (update_synced_set s.synced memb).0;
    })
trans_in e s memb id ggather = some (record s {
  trans_memb = memb;
  trans_memb_id = id;
  groups = map (cascade_group memb) s.groups;
  phase = ggt;
})
trans_in e s memb id gtrans = none
trans_in e s memb id ggt = none

-- `G_handle_trans_memb`; `none` is an exit.
unfoldable pub handle_trans_memb : Env → State → Configuration → MembershipId → Option State
unfolding trans_in
handle_trans_memb e s memb id = trans_in e s memb id s.phase

-- Whether `G_eliminate_partitioned_daemons_status` discards a daemon.
abbrev pub is_needless : Phase → Configuration → DaemonMembers → Bool
is_needless ggt memb d = is_away memb d
is_needless _ memb d = is_partitioned_daemon d

-- Its loop, over the daemons that the group had.
abbrev pub eliminate_from :
    Env → Phase → Configuration → List DaemonMembers → Group × Bool → Option (Group × Bool)
eliminate_from e phase memb [] r = some r
eliminate_from e phase memb (d ∷ ds) r =
    let rest = eliminate_from e phase memb ds r in
    if is_needless phase memb d
    then (remove_daemon e r.0 d >>= λ g'. eliminate_from e phase memb ds (g', true))
    else rest

unfoldable pub eliminate_partitioned_daemons_status : Env → State → Group → Option (Group × Bool)
unfolding remove_daemon
eliminate_partitioned_daemons_status e s g =
    eliminate_from e s.phase s.trans_memb g.daemons (g, false)

abbrev pub settle_eliminated : Env → (Group → State → Option State) → Group → State → Option State
settle_eliminated e go_on g s = if g.num_members == 0 then remove_group e s g else go_on g s

-- `G_eliminate_partitioned_daemons`, and the removal of a group that it leaves empty; else `go_on`.
unfoldable pub eliminate_then : Env → (Group → State → Option State) → Group → State → Option State
unfolding eliminate_partitioned_daemons_status remove_group
eliminate_then e go_on g s =
    eliminate_partitioned_daemons_status e s g >>= λ r. settle_eliminated e go_on r.0 s

-- The loops over the groups, of which only the one reached is changed or removed.
abbrev pub each_group : (Group → State → Option State) → List Group → State → Option State
each_group f [] s = some s
each_group f (g ∷ gs) s = f g s >>= each_group f gs

-- A changed group after a membership that is only smaller.
abbrev pub restart_group : Env → Group → State → Option State
restart_group e g s =
    let g' = update_daemon_memb_ids (restart_id s.reg_memb_id false g) in
    if_any g.mboxes (send_heavyweight_memb e g') >>= λ t. some (commit s (g', t))

abbrev pub if_changed : (Group → State → Option State) → Group → State → Option State
if_changed f g s = if g.changed then f g s else some s

-- `Session_threshold` is MEDIUM_PRIORITY or LOW_PRIORITY.
abbrev pub open_exchange : State → State
open_exchange s = record s { session_threshold = 1; normal_down_queue = false }

-- The messages of the leader of a synced set.
abbrev pub send_as_leader : Env → State → Option State
send_as_leader e s =
    if is_synced_set_leader s e.my.id
    then (build_new_groups_bufs e s >>= λ s'.
        some (send_groups_messages e (record s' { bufs_fresh = true })))
    else some s

-- The messages of a link into the groups; each is disposed of.
abbrev pub take_messages : Env → List GroupsMess → State × List ℕ → Option (State × List ℕ)
take_messages e [] r = some r
take_messages e (m ∷ ms) r = mess_to_groups e m r >>= take_messages e ms

-- The links that are complete, where the own one is; `sset` is what the last message left there.
abbrev pub take_complete : Env → List Link → State × List ℕ → Option State
take_complete e [] r = some r.0
take_complete e (l ∷ ls) r =
    let rest = take_complete e ls r in
    if l.complete
    then (take_messages e l.messages r >>= λ r'.
        add_to_synced_set e r'.1
          (record r'.0 { bufs_fresh = elim l.messages [ [] ↦ (r'.0).bufs_fresh | _ ∷ _ ↦ false ] })
        >>= λ s'. take_complete e ls (s', r'.1))
    else rest

-- A group after a cascading membership.
abbrev pub cascade_eliminate : Env → Group → State → Option State
cascade_eliminate e g s = eliminate_partitioned_daemons_status e s g >>= λ r.
    if r.1
    then (let s' = record s { bufs_fresh = false } in
        if (r.0).num_members == 0
        then remove_group e s' r.0
        else some (commit s' (record r.0 { changed = true }, [])))
    else some s

-- The own buffers, stamped where they are still good, built again else.
abbrev pub resend_as_leader : Env → State → Option State
resend_as_leader e s =
    if is_synced_set_leader s e.my.id
    then (if s.bufs_fresh
        then some (send_groups_messages e (stamp_groups_bufs s))
        else send_as_leader e (discard_groups_bufs s))
    else some s

abbrev pub restart_exchange : State → State
restart_exchange s =
    let r = update_synced_set s.synced s.trans_memb in
    record s {
      synced = r.0;
      bufs_fresh = if r.1 then false else s.bufs_fresh;
      own_complete = false;
      gathered = [];
      num_mess_gathered = 0;
      num_daemons_gathered = 0;
    }

-- G_handle_reg_memb in each state; in GTRANS, where no daemon is new, or one is.
unfoldable pub reg_in : Env → State → Configuration → MembershipId → Phase → Option State
unfolding eliminate_then eliminate_partitioned_daemons_status
reg_in e s memb id gop = none
reg_in e s memb id ggather = none
reg_in e s memb id gtrans =
    let s' : State = record s { reg_memb = memb; reg_memb_id = id } in
    if num_procs s.trans_memb == num_procs memb
    then (each_group (if_changed (eliminate_then e (restart_group e))) s.groups s' >>= λ t.
        some (record t { phase = gop }))
    else (each_group (if_changed (eliminate_then e (λ g t. some (commit t (g, []))))) s.groups s'
        >>= λ t. send_as_leader e (open_exchange t) >>= λ u. some (record u { phase = ggather }))
reg_in e s memb id ggt =
    let s' : State = record s { reg_memb = memb; reg_memb_id = id } in
    (if s.own_complete then take_complete e s.gathered (s', e.unset_synced) else some s') >>= λ t.
    each_group (cascade_eliminate e) t.groups t >>= λ u.
    resend_as_leader e (restart_exchange u) >>= λ v. some (record v { phase = ggather })

-- `G_handle_reg_memb`; `none` is an exit.
unfoldable pub handle_reg_memb : Env → State → Configuration → MembershipId → Option State
unfolding reg_in
handle_reg_memb e s memb id = reg_in e s memb id s.phase
