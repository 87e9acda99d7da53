-- ===== src/Groups/Handlers.antt =====
-- daemon/groups.c: a member joins a group.
use in5020_distribuerte_syst.Prelude.{
  ℕ, suc, true, false, ◌==◌, if◌then◌else◌, List, [], ◌∷◌, ◌++◌, Option, none, some, ◌>>=◌,
}
use in5020_distribuerte_syst.Conf.{Proc, id_in_conf}
use in5020_distribuerte_syst.Groups.{
  Name, Group, DaemonMembers, Env, Notice, Phase, gop, gtrans, ggather, ggt, by_join,
  unknown_memb_id, is_partitioned_daemon, get_group, get_daemon, get_member, write_daemon,
  write_group,
}
use in5020_distribuerte_syst.Groups.Notices.{
  send_lightweight_memb, send_trans_memb, send_heavyweight_join,
}
use in5020_distribuerte_syst.Groups.State.{State}
use in5020_distribuerte_syst.Groups.Names.{names_of, proc_by_name}

-- A group that G_handle_join adds.
abbrev pub new_group : State → Name → Group
new_group s name = record {
  name = name;
  grp_id = record {
    memb_id = elim s.phase [ gop ↦ s.reg_memb_id | _ ↦ s.trans_memb_id ];
    index = 0;
  };
  changed = false;
  num_members = 0;
  daemons = [];
  mboxes = [];
}

-- A daemon that G_handle_join adds, partitioned or not.
abbrev pub new_daemon : State → Group → ℕ → DaemonMembers
new_daemon s g id = record {
  proc_id = id;
  memb_id = elim s.phase [
    | gop ↦ g.grp_id.memb_id
    | _ ↦ elim (id_in_conf s.trans_memb id) [ none ↦ unknown_memb_id | some _ ↦ g.grp_id.memb_id ]
  ];
  members = [];
}

-- The group to join, and the daemon in it: put into their lists where they are new.
abbrev pub group_or_new : Env → State → Name → Option Group → Group × State
group_or_new e s name (some g) = (g, s)
group_or_new e s name none =
    let g = new_group s name in
    (g, record s { groups = e.groups_list.put s.groups g; num_groups = suc s.num_groups })

abbrev pub daemon_or_new :
    Env → State → Group → ℕ → Option DaemonMembers → Option (DaemonMembers × Group)
daemon_or_new e s g id (some d) = some (d, g)
daemon_or_new e s g id none =
    let d = new_daemon s g id in
    e.daemons_list.put g.daemons d >>= λ ds. some (d, record g { daemons = ds })

-- A new member of a daemon in its group, without the mailbox.
abbrev pub add_member : Env → Group → DaemonMembers → Name → Group
add_member e g d name =
    let d' = record d { members = e.members_list.put d.members name } in
    record g {
      num_members = suc g.num_members;
      grp_id = record { memb_id = g.grp_id.memb_id; index = suc g.grp_id.index };
      daemons = write_daemon d' g.daemons;
    }

-- The mailbox of a local joiner; `none` is the exit where it has no session.
abbrev pub joiner_mbox : Env → DaemonMembers → Name → Option (Option ℕ)
joiner_mbox e d private_name =
    if d.proc_id == e.my.id
    then elim (e.mbox_of private_name) [ none ↦ none | some m ↦ some (some m) ]
    else some none

abbrev pub push_mbox : Option ℕ → List ℕ → List ℕ
push_mbox none ms = ms
push_mbox (some m) ms = ms ++ m ∷ []

-- A joiner from a partitioned daemon changes the group.
abbrev pub settle_joiner : Group → DaemonMembers → Option ℕ → Group
settle_joiner g d mbox = record g {
  mboxes = push_mbox mbox g.mboxes;
  changed = if is_partitioned_daemon d then true else g.changed;
}

-- Only a group with a local member is told.
abbrev pub if_any : List ℕ → Option (List (ℕ × Notice)) → Option (List (ℕ × Notice))
if_any [] t = some []
if_any (_ ∷ _) t = t

-- The notices of G_handle_join.
abbrev pub tell_join : Env → Group → Name → Option ℕ → Option (List (ℕ × Notice))
tell_join e g name mbox = if_any g.mboxes (
    if g.changed
    then (send_heavyweight_join e g (some name) mbox >>= λ t. some (t ++ send_trans_memb e g))
    else some (send_lightweight_memb e g by_join name))

-- A daemon in its group, with what the search for the joiner in it found.
unfoldable pub join_daemon :
    Env
    → (name private_name : Name) → DaemonMembers × Group
    → Option Name
    → Option (Group × List (ℕ × Notice))
join_daemon e name private_name r (some _) = some (r.1, [])
join_daemon e name private_name r none = joiner_mbox e r.0 private_name >>= λ mbox.
    let g' = settle_joiner (add_member e r.1 r.0 name) r.0 mbox in
    tell_join e g' name mbox >>= λ t. some (g', t)

-- G_handle_join behind the search for the group.
unfoldable pub join_group :
    Env → State → Group → ℕ → (name private_name : Name) → Option (Group × List (ℕ × Notice))
unfolding join_daemon
join_group e s g id name private_name = get_daemon e g id >>= daemon_or_new e s g id >>= λ r.
    join_daemon e name private_name r (get_member e r.0 name)

-- Joins, leaves and kills are handled in GOP and GTRANS; `none` is an exit.
abbrev pub if_serving {ℓ} : {A : Type ℓ} → Phase → Option A → Option A
if_serving gop t = t
if_serving gtrans t = t
if_serving ggather t = none
if_serving ggt t = none

abbrev pub commit : State → Group × List (ℕ × Notice) → State
commit s r = record s { groups = write_group r.0 s.groups; told = s.told ++ r.1 }

-- With the process of the joiner.
abbrev pub join_as : Env → State → Name → Name → Option Proc → Option State
join_as e s name group_name none = some s
join_as e s name group_name (some p) =
    let r = group_or_new e s group_name (get_group e s.groups group_name) in
    join_group e r.1 r.0 p.id name (names_of e name).0 >>= λ j. some (commit r.1 j)

-- `G_handle_join`; `none` is an exit.
unfoldable pub handle_join : Env → State → Name → Name → Option State
handle_join e s name group_name =
    if_serving s.phase (join_as e s name group_name (proc_by_name e.table (names_of e name).1))
