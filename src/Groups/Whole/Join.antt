-- ===== src/Groups/Whole/Join.antt =====
-- daemon/groups.c: a group stays whole where a member joins.
use mathlib.Core.List.{Perm, Permᴰ}
use mathlib.Core.List.Perm
use mathlib.Core.Bool.{true≢false}
use mathlib.Core.List.Permᴰ as PermD
use in5020_distribuerte_syst.Prelude.{
  ℕ, ◌<◌, ◌≡◌, ◌≢◌, refl, sym, ap, ◌∙◌, subst, false, ◌==◌, ==_iff, List, [], ◌∷◌, ◌++◌, map,
  Option, none, some, >>=-Returns, >>=-some, if-Returns, arith, All, All-imp, All-perm, length-perm,
  Apart-perm, Apart, gather, gather-perm, Bool-cases, Option-cases, inl, inr,
}
use in5020_distribuerte_syst.Groups.{
  Name, Group, DaemonMembers, Env, Notice, by_join, gop, is_unknown_memb_id, is_partitioned_daemon,
  get_daemon, get_member, IsListed, AllListed,
}
use in5020_distribuerte_syst.Groups.Listed.{get_daemon-some, get_daemon-Returns}
use in5020_distribuerte_syst.Groups.Notices.{all_members, send_lightweight_memb}
use in5020_distribuerte_syst.Groups.Notices.Sets.{IsJoiner, send_heavyweight_join-Returns}
use in5020_distribuerte_syst.Groups.State.{State}
use in5020_distribuerte_syst.Groups.Names.{names_of}
use in5020_distribuerte_syst.Groups.Handlers.{
  add_member, settle_joiner, joiner_mbox, push_mbox, tell_join, join_daemon, join_group, new_daemon,
}
use in5020_distribuerte_syst.Groups.Whole.{
  IsWhole, HasDaemon, IsFull, IsMarked, id_of, itself, box, local_members, write-perm,
  if_any-Returns, found-HasDaemon, added-HasDaemon, exchange-IsWhole,
}

-- A joiner from this daemon has a session.
abbrev pub HasSession : Env → ℕ → Name → Type 0
HasSession e id name = id ≡ e.my.id → (m : ℕ) × (box e name ≡ some m)

-- The mailbox of a joiner from a daemon, here or elsewhere.
pub data IsBox (e : Env) (id : ℕ) (name : Name) : Option ℕ → Type 0 where
  here : id ≡ e.my.id → (m : ℕ) → box e name ≡ some m → IsBox e id name (some m)
  elsewhere : id ≢ e.my.id → IsBox e id name none

joiner_mbox-Returns :
    (e : Env) (d : DaemonMembers) (name : Name)
    → HasSession e d.proc_id name
    → (b : Option ℕ) × (joiner_mbox e d (names_of e name).0 ≡ some b) × IsBox e d.proc_id name b
joiner_mbox-Returns e d name h = elim (Bool-cases (d.proc_id == e.my.id)) [
  | inl mine ↦
      let same : d.proc_id ≡ e.my.id = (==_iff d.proc_id e.my.id).0 mine in
      let (m, r) = h same in (some m, rw (mine, r) refl, here same m r)
  | inr other ↦ (none, rw other refl, elsewhere (ground arith))
]

map-snoc : (ms : List ℕ) (m : ℕ) → map some (ms ++ m ∷ []) ≡ map some ms ++ some m ∷ []
map-snoc [] m = refl
map-snoc (b ∷ bs) m = ap (λ l. some b ∷ l) (map-snoc bs m)

tell_join-Returns :
    (e : Env) (g : Group) (name : Name) (b : Option ℕ)
    → AllListed e.table g.daemons
    → Apart id_of g.daemons
    → IsJoiner (some name) (all_members g.daemons)
    → (t : List (ℕ × Notice)) × (tell_join e g name b ≡ some t)
tell_join-Returns e g name b l a j = if_any-Returns g.mboxes _ (
    if-Returns g.changed _ _
      (>>=-Returns _ _ (send_heavyweight_join-Returns e g (some name) b l a j))
      (send_lightweight_memb e g by_join name, refl))

module _ (e : Env) (g : Group) (d : DaemonMembers) (rest : List DaemonMembers) (name : Name)
    (h : HasDaemon e g d rest) (new : get_member e d name ≡ none) where
  abbrev joined : DaemonMembers
  joined = record d { members = e.members_list.put d.members name }

  abbrev after : Option ℕ → Group
  after b = settle_joiner (add_member e g d name) d b

  joined-perm : Permᴰ joined.members (name ∷ d.members)
  joined-perm = e.members_list.put-perm d.members name new

  joined-IsFull : IsFull joined
  joined-IsFull = (
    rw (length-perm joined-perm) (omega arith),
    Apart-perm itself (PermD.symm joined-perm) (
      All-imp (λ c ne e'. ne (sym e')) d.members (e.members_list.find-none d.members name new),
      h.names,
    ),
  )

  none_local : d.proc_id ≢ e.my.id → local_members e d ≡ []
  none_local ne = ground arith

  none_local_joined : d.proc_id ≢ e.my.id → local_members e joined ≡ []
  none_local_joined ne = ground arith

  all_local : d.proc_id ≡ e.my.id → local_members e d ≡ d.members
  all_local same = ground arith

  all_local_joined : d.proc_id ≡ e.my.id → local_members e joined ≡ joined.members
  all_local_joined same = ground arith

  mine :
      d.proc_id ≡ e.my.id
      → Permᴰ
          (name ∷ (local_members e d ++ gather (local_members e) rest))
          (local_members e joined ++ gather (local_members e) rest)
  mine same =
      rw (all_local same, all_local_joined same)
        (PermD.symm (PermD.append_right (gather (local_members e) rest) joined-perm))

  after-boxes :
      (b : Option ℕ)
      → IsBox e d.proc_id name b
      → Perm
          (map some (push_mbox b g.mboxes))
          (map (box e) (local_members e joined ++ gather (local_members e) rest))
  after-boxes b (here same m em) = rw (map-snoc g.mboxes m) (
      Perm.trans ∣ PermD.append_comm (map some g.mboxes) (some m ∷ []) ∣₁ (
        subst
          (λ o.
            Perm (o ∷ map some g.mboxes)
              (map (box e) (local_members e joined ++ gather (local_members e) rest)))
          em (Perm.trans (Perm.cons (box e name) h.boxes) ∣ PermD.map (box e) (mine same) ∣₁)))
  after-boxes b (elsewhere ne) = rw (none_local_joined ne) (
      subst (λ l. Perm (map some g.mboxes) (map (box e) (l ++ gather (local_members e) rest)))
        (none_local ne) h.boxes)

  after-IsMarked : (b : Option ℕ) → All (IsMarked (after b).changed) (joined ∷ rest)
  after-IsMarked b = (λ p. rw p refl, All-imp (λ c k p. ground (arith, k p)) rest h.marked)

  after-IsWhole : (b : Option ℕ) → IsBox e d.proc_id name b → IsWhole e (after b)
  after-IsWhole b k =
      exchange-IsWhole e g (after b) d joined rest h refl refl joined-IsFull
        (rw (length-perm joined-perm) (omega (arith, h.count))) (after-boxes b k) (after-IsMarked b)

  after-IsJoiner : (b : Option ℕ) → IsJoiner (some name) (all_members (after b).daemons)
  unfolding IsJoiner
  after-IsJoiner b = λ none_named.
      let p : Permᴰ (all_members (after b).daemons)
          ((name ∷ d.members) ++ gather (λ c. c.members) rest) =
        Permᴰ.trans
          (gather-perm (λ c. c.members) (write-perm d joined g.daemons rest h.perm h.apart refl))
          (PermD.append_right (gather (λ c. c.members) rest) joined-perm) in
      (All-perm (λ n. name ≢ n) p none_named).0 refl

-- The group in which the joiner is: whole, not empty, the same group with the same membership, and
-- as unchanged as it was where its membership is known.
pub record Joined (e : Env) (calm : Type 0) (g g' : Group) : Type 0 where
  pub whole : IsWhole e g'
  pub some_left : 0 < g'.num_members
  pub same_name : g'.name ≡ g.name
  pub same_id : g'.grp_id.memb_id ≡ g.grp_id.memb_id
  pub stays :
      calm → is_unknown_memb_id g.grp_id.memb_id ≡ false → g.changed ≡ false → g'.changed ≡ false

-- A joiner that is not in its daemon, which the group has.
join_daemon-IsWhole :
    (e : Env) (g : Group) (d : DaemonMembers) (rest : List DaemonMembers) (name : Name)
    → HasDaemon e g d rest
    → get_member e d name ≡ none
    → HasSession e d.proc_id name
    → (calm : Type 0)
    → (calm
        → is_unknown_memb_id g.grp_id.memb_id ≡ false
        → g.changed ≡ false
        → is_partitioned_daemon d ≡ false)
    → (r : Group × List (ℕ × Notice)) × (join_daemon e name (names_of e name).0 (d, g) none
        ≡ some r)
      × Joined e calm g r.0
unfolding join_daemon
join_daemon-IsWhole e g d rest name h new session calm known =
    let (b, r, k) = joiner_mbox-Returns e d name session in
    let w : IsWhole e (after e g d rest name h new b) = after-IsWhole e g d rest name h new b k in
    let (t, r') =
      tell_join-Returns e (after e g d rest name h new b) name b w.listed w.apart
        (after-IsJoiner e g d rest name h new b) in
    (
      (after e g d rest name h new b, t),
      rw (r, r') refl,
      record {
        whole = w;
        some_left = omega arith;
        same_name = refl;
        same_id = refl;
        stays = λ c k u. rw (known c k u) u;
      },
    )

-- A daemon with no member has no joiner.
none_there : (e : Env) (name : Name) (o : Option Name) → e.members_list.find [] name ≡ o → o ≡ none
none_there e name none f = refl
none_there e name (some n) f =
    absurd (omega (arith, length-perm (e.members_list.find-some [] name n f).2))

pub join_group-IsWhole :
    (e : Env) (s : State) (g : Group) (id : ℕ) (name : Name)
    → IsWhole e g
    → IsListed e.table id
    → HasSession e id name
    → (r : Group × List (ℕ × Notice)) × (join_group e s g id name (names_of e name).0 ≡ some r)
      × Joined e (s.phase ≡ gop) g r.0
unfolding join_group
join_group-IsWhole e s g id name w k session =
    let (o, f) = get_daemon-Returns e g id w.listed k in by_daemon o f
  where
    known_there :
        (d : DaemonMembers)
        → get_daemon e g id ≡ some (some d)
        → g.changed ≡ false
        → is_partitioned_daemon d ≡ false
    known_there d f u = elim (Bool-cases (is_partitioned_daemon d)) [
      | inr p ↦ p
      | inl p ↦ absurd (
          true≢false (
            sym (
              (All-perm (IsMarked g.changed) (e.daemons_list.find-some g.daemons id d f).2
                  w.marked).0
                p)
            ∙ u))
    ]

    known_new :
        s.phase ≡ gop
        → is_unknown_memb_id g.grp_id.memb_id ≡ false
        → g.changed ≡ false
        → is_partitioned_daemon (new_daemon s g id) ≡ false
    known_new c k u = rw c k

    by_member :
        (d : DaemonMembers)
        → get_daemon e g id ≡ some (some d)
        → (r : Group × List (ℕ × Notice)) × (join_daemon e name
              (names_of e name).0
              (d, g)
              (get_member e d name)
            ≡ some r)
          × Joined e (s.phase ≡ gop) g r.0
    by_member d f = elim (Option-cases (get_member e d name)) [
      | inr (n, m) ↦
          let (rest, h) = found-HasDaemon e g w id d f in
          (
            (g, []),
            rw m refl,
            record {
              whole = w;
              some_left =
                  omega
                    (arith, h.count, length-perm (e.members_list.find-some d.members name n m).2);
              same_name = refl;
              same_id = refl;
              stays = λ _ _ u. u;
            },
          )
      | inl m ↦
          let (r, j, v) =
            join_daemon-IsWhole e g d (found-HasDaemon e g w id d f).0 name
              (found-HasDaemon e g w id d f).1 m
              (subst (λ i. HasSession e i name) (sym (get_daemon-some e g id w.listed k d f).0)
                session)
              (s.phase ≡ gop) (λ _ _ u. known_there d f u) in
          (r, rw m j, v)
    ]

    by_daemon :
        (o : Option DaemonMembers)
        → get_daemon e g id ≡ some o
        → (r : Group × List (ℕ × Notice)) × (join_group e s g id name (names_of e name).0 ≡ some r)
          × Joined e (s.phase ≡ gop) g r.0
    by_daemon (some d) f =
        let (r, j, v) = by_member d f in
        (r, >>=-some _ _ (d, g) _ (>>=-some _ _ (some d) _ f refl) j, v)
    by_daemon none f =
        let d = new_daemon s g id in
        let (ds, put, p) = e.daemons_list.put-perm g.daemons d f in
        let m : get_member e d name ≡ none = none_there e name _ refl in
        let (r, j, v) =
          join_daemon-IsWhole e (record g { daemons = ds }) d g.daemons name
            (added-HasDaemon e g w d ds k f p refl) m session (s.phase ≡ gop) known_new in
        (
          r,
          >>=-some _ _ (d, record g { daemons = ds }) _
              (>>=-some _ _ none _ f (>>=-some _ _ ds _ put refl)) (rw m j),
          record {
            whole = v.whole;
            some_left = v.some_left;
            same_name = v.same_name;
            same_id = v.same_id;
            stays = v.stays;
          },
        )
