-- ===== src/Groups/Whole/Leave.antt =====
-- daemon/groups.c: G_handle_leave and G_handle_kill keep the state of the groups.
use in5020_distribuerte_syst.Prelude.{
  ℕ, ◌≡◌, refl, ◌∙◌, Option, none, some, >>=-some, All-perm, Apart-perm, length-perm, ◌⊎◌,
}
use in5020_distribuerte_syst.Conf.{Proc}
use in5020_distribuerte_syst.Groups.{
  Name, Group, DaemonMembers, Env, gop, gtrans, get_group, get_daemon, get_member, IsListed,
}
use in5020_distribuerte_syst.Groups.Listed.{get_daemon-Returns}
use in5020_distribuerte_syst.Groups.State.{State}
use in5020_distribuerte_syst.Groups.Names.{names_of, proc_by_name}
use in5020_distribuerte_syst.Groups.Departures.{
  leave_as, leave_known, leave_daemon, leave_from, handle_leave,
}
use in5020_distribuerte_syst.Groups.Whole.Daemon.{
  IsKept, IsSound, FindsAll, proc_by_name-IsListed, name_of, if_serving-eq,
}
use in5020_distribuerte_syst.Groups.Whole.Leaving.{leave_group-IsSound}

-- In GOP and GTRANS, where the groups of the daemon are sound (different and counted; each not
-- empty, its members distinct and counted, its mailboxes those of the local members, marked as
-- changed where a daemon is partitioned, its daemons distinct and each found by its id in the
-- configuration) and the configuration finds each of its processes by the id: G_handle_leave of any
-- name from any group returns, without an exit or a failing assertion, and leaves the groups sound.
pub handle_leave-IsSound :
    (e : Env) (s : State) (name group_name : Name)
    → (s.phase ≡ gop) ⊎ (s.phase ≡ gtrans)
    → IsSound e s
    → FindsAll e.table
    → (s' : State) × (handle_leave e s name group_name ≡ some s') × IsSound e s'
unfolding handle_leave
handle_leave-IsSound e s name group_name ph i t =
    let (s', r, v) = by_process (proc_by_name e.table (names_of e name).1) refl in
    (s', if_serving-eq s.phase ph _ ∙ r, v)
  where
    by_member :
        (g : Group) (id : ℕ) (d : DaemonMembers) (o : Option Name)
        → get_group e s.groups group_name ≡ some g
        → get_daemon e g id ≡ some (some d)
        → get_member e d name ≡ o
        → (s' : State) × (leave_from e s name g d o ≡ some s') × IsSound e s'
    by_member g id d none fg fd fm = (s, refl, i)
    by_member g id d (some n) fg fd fm =
        let (_, rest, p) = e.groups_list.find-some s.groups group_name g fg in
        let k = All-perm (IsKept e s.phase) p i.kept in
        leave_group-IsSound e s g rest d name n
          (record {
            perm = p;
            names = Apart-perm name_of p i.names;
            kept = k.1;
            counted = i.counted ∙ length-perm p;
            reg_known = i.reg_known;
            trans_known = i.trans_known;
          })
          k.0 id fd fm

    by_daemon :
        (g : Group) (id : ℕ) (o : Option DaemonMembers)
        → get_group e s.groups group_name ≡ some g
        → get_daemon e g id ≡ some o
        → (s' : State) × (leave_daemon e s name g o ≡ some s') × IsSound e s'
    by_daemon g id none fg fd = (s, refl, i)
    by_daemon g id (some d) fg fd = by_member g id d _ fg fd refl

    by_group :
        (id : ℕ) (o : Option Group)
        → IsListed e.table id
        → get_group e s.groups group_name ≡ o
        → (s' : State) × (leave_known e s name id o ≡ some s') × IsSound e s'
    by_group id none l fg = (s, refl, i)
    by_group id (some g) l fg =
        let k =
          All-perm (IsKept e s.phase) (e.groups_list.find-some s.groups group_name g fg).2 i.kept in
        let (o, f) = get_daemon-Returns e g id ((k.0).whole).listed l in
        let (s', r, v) = by_daemon g id o fg f in (s', >>=-some _ _ o _ f r, v)

    by_process :
        (o : Option Proc)
        → proc_by_name e.table (names_of e name).1 ≡ o
        → (s' : State) × (leave_as e s name group_name o ≡ some s') × IsSound e s'
    by_process none fp = (s, refl, i)
    by_process (some p) fp = by_group p.id _ (proc_by_name-IsListed e.table _ t p fp) refl
