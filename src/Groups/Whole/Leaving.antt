-- ===== src/Groups/Whole/Leaving.antt =====
-- daemon/groups.c: a member is found in a group and taken out of it.
use mathlib.Core.List.{Perm, Permᴰ}
use mathlib.Core.List.Perm
use mathlib.Core.List.Permᴰ as PermD
use in5020_distribuerte_syst.Prelude.{
  ℕ, ◌≡◌, ◌≢◌, sym, ap, ◌∙◌, subst, true, false, ◌==◌, ==_iff, List, [], ◌∷◌, ◌++◌, map, Option,
  some, >>=-some, if-true, if-false, arith, All-perm, gather, Bool-cases, inl, inr,
}
use in5020_distribuerte_syst.Groups.{
  Name, Group, DaemonMembers, Env, by_leave, by_disconnect, drop_mbox, get_daemon, get_member,
  remove_mailbox, set_mboxes,
}
use in5020_distribuerte_syst.Groups.Notices.{send_self_leave}
use in5020_distribuerte_syst.Groups.State.{State}
use in5020_distribuerte_syst.Groups.Names.{names_of}
use in5020_distribuerte_syst.Groups.Departures.{
  extract_member, without_member, settle_departure, kill_in_group, leave_group,
}
use in5020_distribuerte_syst.Groups.Whole.{HasDaemon, IsMarked, box, local_members, found-HasDaemon}
use in5020_distribuerte_syst.Groups.Whole.Daemon.{IsKept, IsSound}
use in5020_distribuerte_syst.Groups.Whole.Mailboxes.{drop_mbox-Returns}
use in5020_distribuerte_syst.Groups.Whole.Extract.{left-perm, extract_member-IsWhole}
use in5020_distribuerte_syst.Groups.Whole.Departure.{
  HasGroup, Departed, IsSettled, settle_departure-IsSound,
}

leave_group-here :
    (e : Env) (s s' : State) (g c : Group) (d : DaemonMembers) (name private_name : Name) (b : ℕ)
    (r : List ℕ)
    → (d.proc_id == e.my.id) ≡ true
    → e.mbox_of private_name ≡ some b
    → drop_mbox b g.mboxes ≡ some r
    → extract_member e (record g { mboxes = r }) d name ≡ some c
    → settle_departure e (record s { told = s.told ++ send_self_leave e g b }) c by_leave name
      ≡ some s'
    → leave_group e s g d name private_name ≡ some s'
unfolding leave_group remove_mailbox
leave_group-here e s s' g c d name private_name b r mine eb dr x y = if-true _ _ _ _ mine (
    >>=-some _ _ b _ eb
      (>>=-some _ _ (record g { mboxes = r }) _ (ap (set_mboxes g) dr) (>>=-some _ _ c _ x y)))

leave_group-far :
    (e : Env) (s s' : State) (g c : Group) (d : DaemonMembers) (name private_name : Name)
    → (d.proc_id == e.my.id) ≡ false
    → extract_member e g d name ≡ some c
    → settle_departure e s c by_leave name ≡ some s'
    → leave_group e s g d name private_name ≡ some s'
unfolding leave_group
leave_group-far e s s' g c d name private_name far x y = if-false _ _ _ _ far (>>=-some _ _ c _ x y)

kill_in_group-here :
    (e : Env) (s s' : State) (g c : Group) (d : DaemonMembers) (name : Name) (mbox : Option ℕ)
    (b : ℕ) (r : List ℕ)
    → (d.proc_id == e.my.id) ≡ true
    → mbox ≡ some b
    → drop_mbox b g.mboxes ≡ some r
    → extract_member e (record g { mboxes = r }) d name ≡ some c
    → settle_departure e s c by_disconnect name ≡ some s'
    → kill_in_group e s g d name mbox ≡ some s'
unfolding kill_in_group remove_mailbox
kill_in_group-here e s s' g c d name mbox b r mine eb dr x y = if-true _ _ _ _ mine (
    >>=-some _ _ b _ eb
      (>>=-some _ _ (record g { mboxes = r }) _ (ap (set_mboxes g) dr) (>>=-some _ _ c _ x y)))

kill_in_group-far :
    (e : Env) (s s' : State) (g c : Group) (d : DaemonMembers) (name : Name) (mbox : Option ℕ)
    → (d.proc_id == e.my.id) ≡ false
    → extract_member e g d name ≡ some c
    → settle_departure e s c by_disconnect name ≡ some s'
    → kill_in_group e s g d name mbox ≡ some s'
unfolding kill_in_group
kill_in_group-far e s s' g c d name mbox far x y = if-false _ _ _ _ far (>>=-some _ _ c _ x y)

-- A member that leaves, from the group and the daemon in which it was found.
module _ (e : Env) (s : State) (g : Group) (rest : List Group) (d : DaemonMembers) (name n : Name)
    (h : HasGroup e s g rest) (k : IsKept e s.phase g) (id : ℕ)
    (f : get_daemon e g id ≡ some (some d)) (m : get_member e d name ≡ some n) where
  here : List DaemonMembers
  here = (found-HasDaemon e g k.whole id d f).0

  has : HasDaemon e g d here
  unfolding here
  has = (found-HasDaemon e g k.whole id d f).1

  IsMarked-here : IsMarked g.changed d
  unfolding here
  IsMarked-here = (All-perm (IsMarked g.changed) (has.perm) (k.whole).marked).0

  -- Where the member is local, its mailbox is taken out.
  local_boxes :
      d.proc_id ≡ e.my.id
      → (b : ℕ) × (box e name ≡ some b)
        × (r : List ℕ) × (drop_mbox b g.mboxes ≡ some r)
        × Perm (map some r) (
            map
              (box e)
              (local_members e (without_member e d name) ++ gather (local_members e) here))
  local_boxes mine =
      drop_mbox-Returns g.mboxes (box e name) _
        (Perm.trans has.boxes ∣ PermD.map (box e) mine_perm ∣₁)
    where
      all_local : local_members e d ≡ d.members
      all_local = ground arith

      all_left : local_members e (without_member e d name) ≡ e.members_list.erase d.members name
      all_left = ground arith

      mine_perm :
          Permᴰ
            (local_members e d ++ gather (local_members e) here)
            (name ∷ (local_members e (without_member e d name) ++ gather (local_members e) here))
      mine_perm =
          rw (all_local, all_left)
            (PermD.append_right (gather (local_members e) here) (left-perm e g d here name n has m))

  far_boxes :
      d.proc_id ≢ e.my.id
      → Perm
          (map some g.mboxes)
          (map (box e) (local_members e (without_member e d name) ++ gather (local_members e) here))
  far_boxes far =
      subst (λ l. Perm (map some g.mboxes) (map (box e) (l ++ gather (local_members e) here)))
        (none_local ∙ sym none_left) has.boxes
    where
      none_local : local_members e d ≡ []
      none_local = ground arith

      none_left : local_members e (without_member e d name) ≡ []
      none_left = ground arith

  departed :
      (r : List ℕ)
      → Perm
          (map some r)
          (map (box e) (local_members e (without_member e d name) ++ gather (local_members e) here))
      → (c : Group) × (extract_member e (record g { mboxes = r }) d name ≡ some c)
        × Departed e s g c
  departed r b =
      let (c, x, w, same_name, same_id, same_mark) =
        extract_member-IsWhole e g d here name n has m r b IsMarked-here in
      (
        c,
        x,
        record {
          whole = w;
          same_name = same_name;
          known = rw same_id k.known;
          calm = λ p. same_mark ∙ k.calm p;
        },
      )

  pub leave_group-IsSound :
      (s' : State) × (leave_group e s g d name (names_of e name).0 ≡ some s') × IsSound e s'
  unfolding leave_group
  leave_group-IsSound = elim (Bool-cases (d.proc_id == e.my.id)) [
    | inl mine ↦
        let (b, eb, r, dr, pb) = local_boxes ((==_iff d.proc_id e.my.id).0 mine) in
        let (c, x, dep) = departed r pb in
        let t : State = record s { told = s.told ++ send_self_leave e g b } in
        let ht : HasGroup e t g rest = record {
          perm = h.perm;
          names = h.names;
          kept = h.kept;
          counted = h.counted;
          reg_known = h.reg_known;
          trans_known = h.trans_known;
        } in
        let dt : Departed e t g c = record {
          whole = dep.whole;
          same_name = dep.same_name;
          known = dep.known;
          calm = dep.calm;
        } in
        let (s', y, v) = settle_departure-IsSound e t g c rest by_leave name ht dt in
        (s', leave_group-here e s s' g c d name _ b r mine eb dr x y, v.sound)
    | inr far ↦
        let (c, x, dep) = departed g.mboxes (far_boxes (ground arith)) in
        let (s', y, v) = settle_departure-IsSound e s g c rest by_leave name h dep in
        (s', leave_group-far e s s' g c d name _ far x y, v.sound)
  ]

  -- One that is killed.
  pub kill_in_group-IsSettled :
      (s' : State) × (kill_in_group e s g d name (box e name) ≡ some s') × IsSettled e rest s'
  kill_in_group-IsSettled = elim (Bool-cases (d.proc_id == e.my.id)) [
    | inl mine ↦
        let (b, eb, r, dr, pb) = local_boxes ((==_iff d.proc_id e.my.id).0 mine) in
        let (c, x, dep) = departed r pb in
        let (s', y, v) = settle_departure-IsSound e s g c rest by_disconnect name h dep in
        (s', kill_in_group-here e s s' g c d name _ b r mine eb dr x y, v)
    | inr far ↦
        let (c, x, dep) = departed g.mboxes (far_boxes (ground arith)) in
        let (s', y, v) = settle_departure-IsSound e s g c rest by_disconnect name h dep in
        (s', kill_in_group-far e s s' g c d name _ far x y, v)
  ]
