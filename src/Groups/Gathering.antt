-- ===== src/Groups/Gathering.antt =====
-- daemon/groups.c: groups messages come in, and end the exchange.
use in5020_distribuerte_syst.Prelude.{
  ℕ, suc, ◌+◌, Bool, true, false, not, ◌==◌, ◌||◌, if◌then◌else◌, List, [], ◌∷◌, Option, none, some,
  ◌>>=◌,
}
use in5020_distribuerte_syst.Conf.{num_procs}
use in5020_distribuerte_syst.Prot.Token.{memb_is_equal}
use in5020_distribuerte_syst.Groups.{Group, Env, gop, gtrans, ggather, ggt, update_daemon_memb_ids}
use in5020_distribuerte_syst.Groups.Notices.{send_heavyweight_memb}
use in5020_distribuerte_syst.Groups.State.{State, Link, GroupsMess}
use in5020_distribuerte_syst.Groups.Names.{proc_by_name}
use in5020_distribuerte_syst.Groups.Handlers.{if_any, commit}
use in5020_distribuerte_syst.Groups.Exchange.{is_synced_set_leader, add_to_synced_set}
use in5020_distribuerte_syst.Groups.Memberships.{
  restart_id, handle_trans_memb, each_group, if_changed, take_messages,
}

-- Whether the representative has a link.
abbrev pub has_link : ℕ → List Link → Bool
has_link id [] = false
has_link id (l ∷ ls) = (id == l.rep_proc_id) || has_link id ls

abbrev pub push_message : GroupsMess → Link → Link
push_message m l = record l {
  messages = m ∷ l.messages;
  complete = if m.agreed then true else l.complete;
}

-- The first link of the representative.
abbrev pub push_to : ℕ → GroupsMess → List Link → List Link
push_to id m [] = []
push_to id m (l ∷ ls) =
    let rest = push_to id m ls in if id == l.rep_proc_id then push_message m l ∷ ls else l ∷ rest

abbrev pub add_to_links : ℕ → GroupsMess → List Link → List Link
add_to_links id m ls =
    if has_link id ls
    then push_to id m ls
    else push_message m (record { rep_proc_id = id; complete = false; messages = [] }) ∷ ls

-- The part of G_handle_groups that keeps the message and counts it.
unfoldable pub gather_message : State → ℕ → GroupsMess → State
gather_message s id m = record s {
  own_complete =
      if is_synced_set_leader s id
      then (if m.agreed then true else s.own_complete)
      else s.own_complete;
  gathered = if is_synced_set_leader s id then s.gathered else add_to_links id m s.gathered;
  num_mess_gathered = suc s.num_mess_gathered;
  num_daemons_gathered =
      if m.agreed then s.num_daemons_gathered + m.synced_size else s.num_daemons_gathered;
}

abbrev pub take_all : Env → List Link → State × List ℕ → Option State
take_all e [] r = some r.0
take_all e (l ∷ ls) r = take_messages e l.messages r >>= λ r'.
    add_to_synced_set e r'.1 r'.0 >>= λ s'. take_all e ls (s', r'.1)

-- A changed group at the end of the exchange: it is told before the ids of the daemons change.
abbrev pub conclude_group : Env → Group → State → Option State
conclude_group e g s =
    let g' = restart_id s.reg_memb_id false g in
    if_any g.mboxes (send_heavyweight_memb e g') >>= λ t.
    some (commit s (update_daemon_memb_ids g', t))

unfoldable pub compute_and_notify : Env → State → Option State
compute_and_notify e s = take_all e s.gathered (s, e.unset_synced) >>= λ t.
    each_group (if_changed (conclude_group e)) t.groups t >>= λ u. some (record u {
      own_complete = false;
      gathered = [];
      num_mess_gathered = 0;
      num_daemons_gathered = 0;
      groups_bufs = [];
      bufs_fresh = false;
    })

-- G_handle_groups behind the counts.
unfoldable pub finish_exchange : Env → State → Option State
unfolding compute_and_notify handle_trans_memb
finish_exchange e s =
    if s.num_daemons_gathered == num_procs s.reg_memb
    then (compute_and_notify e (record s { normal_down_queue = true; session_threshold = 0 })
        >>= λ t. elim s.phase [
          | ggather ↦ some (record t { phase = gop })
          | _ ↦ handle_trans_memb e (record t { phase = gop }) t.trans_memb t.trans_memb_id
        ])
    else some s

abbrev pub gather_now : Env → State → GroupsMess → Option State
gather_now e s m =
    if not (memb_is_equal m.buf.memb_id s.reg_memb_id)
    then some s
    else elim (proc_by_name e.table m.sender) [
      | none ↦ some s
      | some p ↦ finish_exchange e (gather_message s p.id m)
    ]

-- `G_handle_groups`; `none` is an exit.
unfoldable pub handle_groups : Env → State → GroupsMess → Option State
unfolding gather_message finish_exchange
handle_groups e s m = elim s.phase [
  | gop ↦ none
  | gtrans ↦ none
  | ggather ↦ gather_now e s m
  | ggt ↦ gather_now e s m
]
