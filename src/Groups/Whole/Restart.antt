-- ===== src/Groups/Whole/Restart.antt =====
-- daemon/groups.c: a regular membership that is only smaller brings the groups back to GOP.
use mathlib.Core.List.{Permᴰ, append-nil}
use mathlib.Core.Bool.{true≢false}
use mathlib.Core.List.Permᴰ as PermD
use in5020_distribuerte_syst.Prelude.{
  ◌-◌, ◌<◌, ◌≡◌, ◌≢◌, refl, sym, ap, ◌∙◌, subst, false, ◌==◌, ==_iff, List, [], ◌∷◌, ◌++◌,
  if◌then◌else◌, some, >>=-some, if-true, if-false, length, arith, All, All-map, All-append,
  All-perm, Apart, Apart-perm, length-perm, rotate-perm, Bool-cases, inl, inr,
}
use in5020_distribuerte_syst.Conf.{Configuration, num_procs}
use in5020_distribuerte_syst.Prot.Store.{MembershipId}
use in5020_distribuerte_syst.Groups.{
  Group, DaemonMembers, Env, gop, gtrans, is_unknown_memb_id, is_partitioned_daemon,
  update_daemon_memb_ids,
}
use in5020_distribuerte_syst.Groups.Notices.Sets.{send_heavyweight_memb-Returns}
use in5020_distribuerte_syst.Groups.State.{State}
use in5020_distribuerte_syst.Groups.Handlers.{commit}
use in5020_distribuerte_syst.Groups.Memberships.{
  eliminate_from, eliminate_partitioned_daemons_status, eliminate_then, settle_eliminated,
  restart_id, restart_group, if_changed, each_group, reg_in, handle_reg_memb,
}
use in5020_distribuerte_syst.Groups.Whole.{IsWhole, IsMarked, if_any-Returns}
use in5020_distribuerte_syst.Groups.Whole.Daemon.{IsKept, IsSound, name_of, write_group-perm}
use in5020_distribuerte_syst.Groups.Whole.Cut.{relabel-marked-IsWhole}
use in5020_distribuerte_syst.Groups.Whole.Departure.{remove_whole-eq}
use in5020_distribuerte_syst.Groups.Whole.Eliminate.{
  IsEstablished, IsHere, IsEliminated, eliminate_from-Returns,
}

-- The groups that the loop has before it, and those behind it.
record InTurn (e : Env) (id : MembershipId) (s : State) (gs done : List Group) : Type 0 where
  perm : Permᴰ s.groups (gs ++ done)
  names : Apart name_of (gs ++ done)
  todo : All (IsKept e gtrans) gs
  here : All (λ g. All (IsHere e) g.daemons) gs
  settled : All (IsKept e gop) done
  counted : s.num_groups ≡ length (gs ++ done)
  phase : s.phase ≡ gtrans
  reg : s.reg_memb_id ≡ id
  trans_known : is_unknown_memb_id s.trans_memb_id ≡ false

-- What a round does with its group: it is gone, or one of the settled.
record HasTurned (e : Env) (id : MembershipId) (rest : List Group) (s : State) : Type 0 where
  more : List Group
  perm : Permᴰ s.groups (more ++ rest)
  names : Apart name_of (more ++ rest)
  settled : All (IsKept e gop) more
  counted : s.num_groups ≡ length (more ++ rest)
  phase : s.phase ≡ gtrans
  reg : s.reg_memb_id ≡ id
  trans_known : is_unknown_memb_id s.trans_memb_id ≡ false

restarted : MembershipId → Group → Group
restarted id g = update_daemon_memb_ids (restart_id id false g)

restarted-IsKept :
    (e : Env) (id : MembershipId) (g : Group)
    → IsWhole e g
    → All IsEstablished g.daemons
    → 0 < g.num_members
    → is_unknown_memb_id id ≡ false
    → IsKept e gop (restarted id g)
unfolding restarted update_daemon_memb_ids
restarted-IsKept e id g w est n known = record {
  whole =
      relabel-marked-IsWhole _ e g (restarted id g) w refl refl refl
        (All-map (IsMarked false) _ unmarked g.daemons est);
  some_left = n;
  known = known;
  calm = λ _. refl;
}
  where
    unmarked :
        (d : DaemonMembers)
        → IsEstablished d
        → IsMarked false (record d { memb_id = if is_partitioned_daemon d then d.memb_id else id })
    unmarked d x = λ p. absurd (
        true≢false (sym p ∙ (ap (λ c. is_unknown_memb_id (if c then d.memb_id else id)) x ∙ known)))

-- A settled group is one of the others.
keep-HasTurned :
    (e : Env) (id : MembershipId) (s : State) (g : Group) (gs done : List Group)
    → InTurn e id s (g ∷ gs) done
    → g.changed ≡ false
    → HasTurned e id (gs ++ done) s
keep-HasTurned e id s g gs done t u = record {
  more = g ∷ [];
  perm = t.perm;
  names = t.names;
  settled = (
    record {
      whole = (t.todo.0).whole;
      some_left = (t.todo.0).some_left;
      known = (t.todo.0).known;
      calm = λ _. u;
    },
    tt,
  );
  counted = t.counted;
  phase = t.phase;
  reg = t.reg;
  trans_known = t.trans_known;
}

module _ (e : Env) (id : MembershipId) (known : is_unknown_memb_id id ≡ false) (s : State)
    (g : Group) (gs done : List Group) (t : InTurn e id s (g ∷ gs) done) where
  -- The group without its partitioned daemons, bare or not.
  settle_eliminated-Returns :
      (c : Group)
      → IsEliminated e g c
      → (s' : State) × (settle_eliminated e (restart_group e) c s ≡ some s')
        × HasTurned e id (gs ++ done) s'
  unfolding restarted update_daemon_memb_ids
  settle_eliminated-Returns c x = elim (Bool-cases (c.num_members == 0)) [
    | inl z ↦
        let out : Permᴰ (e.groups_list.erase s.groups c.name) (gs ++ done) =
          subst (λ n. Permᴰ (e.groups_list.erase s.groups n) (gs ++ done)) (sym x.same_name)
            (e.groups_list.erase-perm s.groups g (gs ++ done) t.perm t.names.0) in
        (
          record s { groups = e.groups_list.erase s.groups c.name; num_groups = s.num_groups - 1 },
          if-true _ _ _ _ z (remove_whole-eq e s g c (gs ++ done) t.perm x.same_name x.whole z),
          record {
            more = [];
            perm = out;
            names = t.names.1;
            settled = tt;
            counted = omega (arith, t.counted);
            phase = t.phase;
            reg = t.reg;
            trans_known = t.trans_known;
          },
        )
    | inr z ↦
        let w =
          restarted-IsKept e s.reg_memb_id c x.whole x.established (ground (arith, z))
            (subst (λ i. is_unknown_memb_id i ≡ false) (sym t.reg) known) in
        let (u, r) = if_any-Returns c.mboxes _ (
          send_heavyweight_memb-Returns e (restarted s.reg_memb_id c) (w.whole).listed
            (w.whole).apart) in
        (
          commit s (restarted s.reg_memb_id c, u),
          if-false _ _ _ _ z (>>=-some _ _ u _ r refl),
          record {
            more = restarted s.reg_memb_id c ∷ [];
            perm =
                write_group-perm g (restarted s.reg_memb_id c) s.groups (gs ++ done) t.perm t.names
                  x.same_name;
            names = (
              subst (λ n. All (λ y. n ≢ name_of y) (gs ++ done)) (sym x.same_name) t.names.0,
              t.names.1,
            );
            settled = (w, tt);
            counted = t.counted;
            phase = t.phase;
            reg = t.reg;
            trans_known = t.trans_known;
          },
        )
  ]

  -- A round of the loop.
  round-Returns :
      (s' : State) × (if_changed (eliminate_then e (restart_group e)) g s ≡ some s')
      × HasTurned e id (gs ++ done) s'
  unfolding eliminate_then eliminate_partitioned_daemons_status
  round-Returns = elim (Bool-cases g.changed) [
    | inr u ↦ (s, if-false _ _ _ _ u refl, keep-HasTurned e id s g gs done t u)
    | inl c ↦
        let (r, q, x) =
          eliminate_from-Returns e s.trans_memb g.daemons [] g false (t.todo.0).whole
            (subst (Permᴰ g.daemons) (sym (append-nil g.daemons)) (PermD.refl g.daemons)) tt
            t.here.0 in
        let (s', q', v) = settle_eliminated-Returns r.0 x in
        (
          s',
          if-true _ _ _ _ c (
              >>=-some _ _ r _
                (ap (λ k. eliminate_from e k s.trans_memb g.daemons (g, false)) t.phase ∙ q) q'),
          v,
        )
  ]

next-InTurn :
    (e : Env) (id : MembershipId) (s s' : State) (g : Group) (gs done : List Group)
    → InTurn e id s (g ∷ gs) done
    → (v : HasTurned e id (gs ++ done) s') → InTurn e id s' gs (v.more ++ done)
next-InTurn e id s s' g gs done t v =
    let p = rotate-perm v.more gs done in
    record {
      perm = Permᴰ.trans v.perm p;
      names = Apart-perm name_of p v.names;
      todo = t.todo.1;
      here = t.here.1;
      settled = All-append (IsKept e gop) v.more done v.settled t.settled;
      counted = v.counted ∙ length-perm p;
      phase = v.phase;
      reg = v.reg;
      trans_known = v.trans_known;
    }

each_group-Returns :
    (e : Env) (id : MembershipId) (gs done : List Group) (s : State)
    → is_unknown_memb_id id ≡ false
    → InTurn e id s gs done
    → (s' : State) × (each_group (if_changed (eliminate_then e (restart_group e))) gs s ≡ some s')
      × (done' : List Group) × InTurn e id s' [] done'
each_group-Returns e id [] done s known t = (s, refl, done, t)
each_group-Returns e id (g ∷ gs) done s known t =
    let (s1, r, v) = round-Returns e id known s g gs done t in
    let (s2, r2, done', w) =
      each_group-Returns e id gs (v.more ++ done) s1 known (next-InTurn e id s s1 g gs done t v) in
    (s2, >>=-some _ _ s1 _ r r2, done', w)

-- In GTRANS, where the groups of the daemon are sound (different and counted; each not empty, its
-- members distinct and counted, its mailboxes those of the local members, marked as changed where a
-- daemon is partitioned, its daemons distinct and each found by its id in the configuration), the
-- own daemon is partitioned in none of them, and the regular membership has as many processes as
-- the transitional one and a known id: G_handle_reg_memb returns, without an exit or a failing
-- assertion, goes to GOP, and leaves the groups sound, so that none is changed, none has a
-- partitioned daemon, and none is empty.
pub handle_reg_memb-IsSound :
    (e : Env) (s : State) (memb : Configuration) (id : MembershipId)
    → s.phase ≡ gtrans
    → num_procs s.trans_memb ≡ num_procs memb
    → is_unknown_memb_id id ≡ false
    → IsSound e s
    → All (λ g. All (IsHere e) g.daemons) s.groups
    → (s' : State) × (handle_reg_memb e s memb id ≡ some s') × (s'.phase ≡ gop) × IsSound e s'
unfolding handle_reg_memb
handle_reg_memb-IsSound e s memb id p same known i k =
    let s0 : State = record s { reg_memb = memb; reg_memb_id = id } in
    let start : InTurn e id s0 s.groups [] = record {
      perm = subst (Permᴰ s.groups) (sym (append-nil s.groups)) (PermD.refl s.groups);
      names = subst (Apart name_of) (sym (append-nil s.groups)) i.names;
      todo = subst (λ q. All (IsKept e q) s.groups) p i.kept;
      here = k;
      settled = tt;
      counted = i.counted ∙ ap length (sym (append-nil s.groups));
      phase = p;
      reg = refl;
      trans_known = i.trans_known;
    } in
    let (s1, r, done, t) = each_group-Returns e id s.groups [] s0 known start in
    let q = PermD.symm t.perm in
    (
      record s1 { phase = gop },
      ap (reg_in e s memb id) p ∙ if-true _ _ _ _ ((==_iff _ _).1 same) (>>=-some _ _ s1 _ r refl),
      refl,
      record {
        names = Apart-perm name_of q t.names;
        kept = All-perm (IsKept e gop) q t.settled;
        counted = t.counted ∙ length-perm q;
        reg_known = subst (λ j. is_unknown_memb_id j ≡ false) (sym t.reg) known;
        trans_known = t.trans_known;
      },
    )
