-- ===== src/Groups/Departures.antt =====
-- daemon/groups.c: a member leaves a group, or all groups.
use in5020_distribuerte_syst.Prelude.{
  ℕ, suc, ◌-◌, ◌==◌, if◌then◌else◌, List, [], ◌∷◌, ◌++◌, Option, none, some, ◌>>=◌,
}
use in5020_distribuerte_syst.Conf.{Proc}
use in5020_distribuerte_syst.Groups.{
  Name, Group, DaemonMembers, Env, Notice, Cause, by_leave, by_disconnect, get_group, get_daemon,
  get_member, write_daemon, remove_daemon, remove_mailbox,
}
use in5020_distribuerte_syst.Groups.Notices.{
  send_lightweight_memb, send_self_leave, send_trans_memb, send_heavyweight_memb,
}
use in5020_distribuerte_syst.Groups.State.{State}
use in5020_distribuerte_syst.Groups.Names.{names_of, proc_by_name}
use in5020_distribuerte_syst.Groups.Handlers.{if_any, if_serving, commit}

-- The group without one of the members of a daemon, and the daemon that is left.
abbrev pub without_member : Env → DaemonMembers → Name → DaemonMembers
without_member e d name = record d { members = e.members_list.erase d.members name }

abbrev pub take_out : Env → Group → DaemonMembers → Name → Group
take_out e g d name = record g {
  num_members = g.num_members - 1;
  daemons = write_daemon (without_member e d name) g.daemons;
}

abbrev pub drop_if_empty : Env → Group → DaemonMembers → List Name → Option Group
drop_if_empty e g d [] = remove_daemon e g d
drop_if_empty e g d (_ ∷ _) = some g

-- The member out of its daemon, and the daemon out of the group where no member is left.
unfoldable pub extract_member : Env → Group → DaemonMembers → Name → Option Group
unfolding remove_daemon
extract_member e g d name =
    drop_if_empty e (take_out e g d name) (without_member e d name)
      (e.members_list.erase d.members name)

-- The notices of G_handle_leave and G_handle_kill to the members that stay.
abbrev pub tell_departure : Env → Group → Cause → Name → Option (List (ℕ × Notice))
tell_departure e g caused name = if_any g.mboxes (
    if g.changed
    then (send_heavyweight_memb e g >>= λ t. some (t ++ send_trans_memb e g))
    else some (send_lightweight_memb e g caused name))

-- With what the search for the group found.
abbrev pub remove_listed : Env → State → Group → Option Group → Option State
remove_listed e s g none = none
remove_listed e s g (some _) =
    some (record s { groups = e.groups_list.erase s.groups g.name; num_groups = s.num_groups - 1 })

-- With the daemons and the mailboxes, of which none may be left.
abbrev pub remove_bare : Env → State → Group → List DaemonMembers → List ℕ → Option State
remove_bare e s g [] [] = remove_listed e s g (get_group e s.groups g.name)
remove_bare e s g [] (_ ∷ _) = none
remove_bare e s g (_ ∷ _) ms = none

-- `G_remove_group`; `none` is an assertion that fails, and the exit on a group that is not listed.
unfoldable pub remove_group : Env → State → Group → Option State
remove_group e s g = remove_bare e s g g.daemons g.mboxes

abbrev pub next_index : Group → Group
next_index g = record g {
  grp_id = record { memb_id = g.grp_id.memb_id; index = suc g.grp_id.index };
}

-- What G_handle_leave and G_handle_kill do with a group from which the member was extracted.
abbrev pub settle_departure : Env → State → Group → Cause → Name → Option State
settle_departure e s g caused name =
    if g.num_members == 0
    then remove_group e s g
    else (tell_departure e (next_index g) caused name >>= λ t. some (commit s (next_index g, t)))

-- G_handle_leave of a member that was found, with its mailbox where it is local.
unfoldable pub leave_group :
    Env → State → Group → DaemonMembers → (name private_name : Name) → Option State
unfolding remove_mailbox extract_member remove_group
leave_group e s g d name private_name =
    if d.proc_id == e.my.id
    then (e.mbox_of private_name >>= λ m. remove_mailbox g m >>= λ g'.
        extract_member e g' d name >>= λ g''.
        settle_departure e (record s { told = s.told ++ send_self_leave e g m }) g'' by_leave name)
    else extract_member e g d name >>= λ g'. settle_departure e s g' by_leave name

-- With what the searches for the daemon and for the member found.
abbrev pub leave_from : Env → State → Name → Group → DaemonMembers → Option Name → Option State
leave_from e s name g d none = some s
leave_from e s name g d (some _) = leave_group e s g d name (names_of e name).0

abbrev pub leave_daemon : Env → State → Name → Group → Option DaemonMembers → Option State
leave_daemon e s name g none = some s
leave_daemon e s name g (some d) = leave_from e s name g d (get_member e d name)

abbrev pub leave_known : Env → State → Name → ℕ → Option Group → Option State
leave_known e s name id none = some s
leave_known e s name id (some g) = get_daemon e g id >>= leave_daemon e s name g

abbrev pub leave_as : Env → State → Name → Name → Option Proc → Option State
leave_as e s name group_name none = some s
leave_as e s name group_name (some p) = leave_known e s name p.id (get_group e s.groups group_name)

-- `G_handle_leave`; `none` is an exit.
unfoldable pub handle_leave : Env → State → Name → Name → Option State
handle_leave e s name group_name =
    if_serving s.phase (leave_as e s name group_name (proc_by_name e.table (names_of e name).1))

-- G_handle_kill in a group of which the killed one is a member. `none` is an exit, and the read of a
-- session that does not exist.
unfoldable pub kill_in_group : Env → State → Group → DaemonMembers → Name → Option ℕ → Option State
unfolding remove_mailbox extract_member remove_group
kill_in_group e s g d name mbox =
    if d.proc_id == e.my.id
    then (mbox >>= λ m. remove_mailbox g m >>= λ g'.
        extract_member e g' d name >>= λ g''. settle_departure e s g'' by_disconnect name)
    else extract_member e g d name >>= λ g'. settle_departure e s g' by_disconnect name

-- With what the searches for the daemon and for the member found.
abbrev pub kill_from :
    Env → State → Name → Option ℕ → Group → DaemonMembers → Option Name → Option State
kill_from e s name mbox g d none = some s
kill_from e s name mbox g d (some _) = kill_in_group e s g d name mbox

abbrev pub kill_daemon : Env → State → Name → Option ℕ → Group → Option DaemonMembers → Option State
kill_daemon e s name mbox g none = some s
kill_daemon e s name mbox g (some d) = kill_from e s name mbox g d (get_member e d name)

-- The loop of G_handle_kill, over the groups that were there when it began: it changes none of them
-- before it comes to it.
unfoldable pub kill_in_groups : Env → ℕ → Name → Option ℕ → List Group → State → Option State
unfolding kill_in_group
kill_in_groups e id name mbox [] s = some s
kill_in_groups e id name mbox (g ∷ gs) s =
    get_daemon e g id >>= kill_daemon e s name mbox g >>= kill_in_groups e id name mbox gs

abbrev pub kill_as : Env → State → Name → Option Proc → Option State
kill_as e s name none = some s
kill_as e s name (some p) = kill_in_groups e p.id name (e.mbox_of (names_of e name).0) s.groups s

-- `G_handle_kill`; `none` is an exit.
unfoldable pub handle_kill : Env → State → Name → Option State
unfolding kill_in_groups
handle_kill e s name =
    if_serving s.phase (kill_as e s name (proc_by_name e.table (names_of e name).1))
