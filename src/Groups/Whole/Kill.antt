-- ===== src/Groups/Whole/Kill.antt =====
-- daemon/groups.c: G_handle_kill keeps the state of the groups.
use mathlib.Core.List.{Permᴰ, append-nil}
use mathlib.Core.List.Permᴰ as PermD
use in5020_distribuerte_syst.Prelude.{
  ℕ, ◌≡◌, refl, sym, ◌∙◌, subst, List, [], ◌∷◌, ◌++◌, Option, none, some, >>=-some, All-perm,
  Apart-perm, length-perm, rotate-perm, ◌⊎◌,
}
use in5020_distribuerte_syst.Conf.{Proc}
use in5020_distribuerte_syst.Groups.{
  Name, Group, DaemonMembers, Env, gop, gtrans, get_daemon, get_member, IsListed,
}
use in5020_distribuerte_syst.Groups.Listed.{get_daemon-Returns}
use in5020_distribuerte_syst.Groups.State.{State}
use in5020_distribuerte_syst.Groups.Names.{names_of, proc_by_name}
use in5020_distribuerte_syst.Groups.Departures.{
  kill_from, kill_daemon, kill_in_groups, kill_as, handle_kill,
}
use in5020_distribuerte_syst.Groups.Whole.{box}
use in5020_distribuerte_syst.Groups.Whole.Daemon.{
  IsKept, IsSound, FindsAll, proc_by_name-IsListed, name_of, if_serving-eq,
}
use in5020_distribuerte_syst.Groups.Whole.Departure.{HasGroup, IsSettled}
use in5020_distribuerte_syst.Groups.Whole.Leaving.{kill_in_group-IsSettled}

-- One of the groups of a sound state, apart.
sound-HasGroup :
    (e : Env) (s : State) (g : Group) (rest : List Group)
    → IsSound e s
    → Permᴰ s.groups (g ∷ rest)
    → HasGroup e s g rest × IsKept e s.phase g
sound-HasGroup e s g rest i p =
    let k = All-perm (IsKept e s.phase) p i.kept in
    (
      record {
        perm = p;
        names = Apart-perm name_of p i.names;
        kept = k.1;
        counted = i.counted ∙ length-perm p;
        reg_known = i.reg_known;
        trans_known = i.trans_known;
      },
      k.0,
    )

module _ (e : Env) (name : Name) (id : ℕ) (s : State) (g : Group) (rest : List Group)
    (i : IsSound e s) (p : Permᴰ s.groups (g ∷ rest)) where
  stays : IsSettled e rest s
  stays = record { sound = i; more = g ∷ []; perm = p }

  kill_from-IsSettled :
      (d : DaemonMembers) (o : Option Name)
      → get_daemon e g id ≡ some (some d)
      → get_member e d name ≡ o
      → (s' : State) × (kill_from e s name (box e name) g d o ≡ some s') × IsSettled e rest s'
  kill_from-IsSettled d none fd fm = (s, refl, stays)
  kill_from-IsSettled d (some n) fd fm =
      let (h, k) = sound-HasGroup e s g rest i p in
      kill_in_group-IsSettled e s g rest d name n h k id fd fm

  kill_daemon-IsSettled :
      (o : Option DaemonMembers)
      → get_daemon e g id ≡ some o
      → (s' : State) × (kill_daemon e s name (box e name) g o ≡ some s') × IsSettled e rest s'
  kill_daemon-IsSettled none fd = (s, refl, stays)
  kill_daemon-IsSettled (some d) fd = kill_from-IsSettled d _ fd refl

kill_in_groups-IsSound :
    (e : Env) (name : Name) (id : ℕ) (gs done : List Group) (s : State)
    → IsListed e.table id
    → IsSound e s
    → Permᴰ s.groups (gs ++ done)
    → (s' : State) × (kill_in_groups e id name (box e name) gs s ≡ some s') × IsSound e s'
unfolding kill_in_groups
kill_in_groups-IsSound e name id [] done s l i p = (s, refl, i)
kill_in_groups-IsSound e name id (g ∷ gs) done s l i p =
    let k = (sound-HasGroup e s g (gs ++ done) i p).1 in
    let (o, f) = get_daemon-Returns e g id (k.whole).listed l in
    let (s1, r, v) = kill_daemon-IsSettled e name id s g (gs ++ done) i p o f in
    let (s2, r2, w) =
      kill_in_groups-IsSound e name id gs (v.more ++ done) s1 l v.sound
        (Permᴰ.trans v.perm (rotate-perm v.more gs done)) in
    (s2, >>=-some _ _ s1 _ (>>=-some _ _ o _ f r) r2, w)

-- In GOP and GTRANS, where the groups of the daemon are sound (different and counted; each not
-- empty, its members distinct and counted, its mailboxes those of the local members, marked as
-- changed where a daemon is partitioned, its daemons distinct and each found by its id in the
-- configuration) and the configuration finds each of its processes by the id: G_handle_kill of any
-- name returns, without an exit or a failing assertion, and leaves the groups sound.
pub handle_kill-IsSound :
    (e : Env) (s : State) (name : Name)
    → (s.phase ≡ gop) ⊎ (s.phase ≡ gtrans)
    → IsSound e s
    → FindsAll e.table
    → (s' : State) × (handle_kill e s name ≡ some s') × IsSound e s'
unfolding handle_kill
handle_kill-IsSound e s name ph i t =
    let (s', r, v) = by_process (proc_by_name e.table (names_of e name).1) refl in
    (s', if_serving-eq s.phase ph _ ∙ r, v)
  where
    by_process :
        (o : Option Proc)
        → proc_by_name e.table (names_of e name).1 ≡ o
        → (s' : State) × (kill_as e s name o ≡ some s') × IsSound e s'
    by_process none fp = (s, refl, i)
    by_process (some p) fp =
        kill_in_groups-IsSound e name p.id s.groups [] s (proc_by_name-IsListed e.table _ t p fp) i
          (subst (Permᴰ s.groups) (sym (append-nil s.groups)) (PermD.refl s.groups))
