-- ===== src/Groups/Whole/Extract.antt =====
-- daemon/groups.c: a group stays whole where a member is taken out of it.
use mathlib.Core.List.{Perm, Permᴰ}
use mathlib.Core.List.Perm
use mathlib.Core.List.Permᴰ as PermD
use in5020_distribuerte_syst.Prelude.{
  ℕ, ◌-◌, ◌<◌, ◌≡◌, ◌≢◌, refl, sym, ap, ◌∙◌, subst, List, [], ◌∷◌, ◌++◌, map, Option, none, some,
  ◌>>=◌, length, arith, All-perm, Apart-perm, gather, gather-perm, sum-perm, length-perm,
  List-cases, inl, inr,
}
use in5020_distribuerte_syst.Groups.{
  Name, Group, DaemonMembers, Env, get_member, remove_daemon, remove_found,
}
use in5020_distribuerte_syst.Groups.Listed.{get_daemon-none, get_daemon-Returns}
use in5020_distribuerte_syst.Groups.Departures.{
  extract_member, take_out, without_member, drop_if_empty,
}
use in5020_distribuerte_syst.Groups.Whole.{
  IsWhole, HasDaemon, IsFull, IsMarked, id_of, itself, size_of, box, local_members, write-perm,
  IsWhole-HasDaemon,
}

abbrev removed : Env → Group → DaemonMembers → Group
removed e g d = record g {
  daemons = e.daemons_list.erase g.daemons d.proc_id;
  num_members = g.num_members - length d.members;
}

-- A group without one of its daemons.
pub record IsRemoved (e : Env) (g : Group) (rest : List DaemonMembers) (g' : Group) : Type 0 where
  pub whole : IsWhole e g'
  pub same_name : g'.name ≡ g.name
  pub same_id : g'.grp_id ≡ g.grp_id
  pub same_mark : g'.changed ≡ g.changed
  pub others : Permᴰ g'.daemons rest

-- A daemon with no local member, out of its group.
pub remove_daemon-IsRemoved :
    (e : Env) (g : Group) (d : DaemonMembers) (rest : List DaemonMembers)
    → HasDaemon e g d rest
    → local_members e d ≡ []
    → (g' : Group) × (remove_daemon e g d ≡ some g') × IsRemoved e g rest g'
unfolding remove_daemon
remove_daemon-IsRemoved e g d rest h empty =
    let (o, f) =
      get_daemon-Returns e g d.proc_id (All-perm _ (PermD.symm h.perm) h.listed) h.listed.0 in
    pick o f
  where
    out : Permᴰ (e.daemons_list.erase g.daemons d.proc_id) rest
    out = e.daemons_list.erase-perm g.daemons d rest h.perm h.apart.0

    whole : IsWhole e (removed e g d)
    whole =
        let q = PermD.symm out in
        record {
          apart = Apart-perm id_of q h.apart.1;
          full = All-perm IsFull q h.full;
          count = omega (arith, h.count, sum-perm size_of q);
          boxes =
              Perm.trans
                (subst
                  (λ l. Perm (map some g.mboxes) (map (box e) (l ++ gather (local_members e) rest)))
                  empty h.boxes)
                ∣ PermD.map (box e) (gather-perm (local_members e) q) ∣₁;
          marked = All-perm (IsMarked g.changed) q h.marked;
          listed = All-perm _ q h.listed.1;
        }

    pick :
        (o : Option DaemonMembers)
        → e.daemons_list.find g.daemons d.proc_id ≡ some o
        → (g' : Group) × ((e.daemons_list.find g.daemons d.proc_id >>= remove_found e g d)
            ≡ some g')
          × IsRemoved e g rest g'
    pick none f = absurd (
        (All-perm (λ c. c.proc_id ≢ d.proc_id) h.perm
            (get_daemon-none e g d.proc_id (All-perm _ (PermD.symm h.perm) h.listed) h.listed.0
              f)).0
          refl)
    pick (some c) f = (
      removed e g d,
      ap (λ o. o >>= remove_found e g d) f,
      record { whole = whole; same_name = refl; same_id = refl; same_mark = refl; others = out },
    )

module _ (e : Env) (g : Group) (d : DaemonMembers) (rest : List DaemonMembers) (name n : Name)
    (h : HasDaemon e g d rest) (m : get_member e d name ≡ some n) where
  -- The member and the others.
  pub left-perm : Permᴰ d.members (name ∷ (without_member e d name).members)
  left-perm =
      let (same, rest', p) = e.members_list.find-some d.members name n m in
      let p' : Permᴰ d.members (name ∷ rest') = subst (λ k. Permᴰ d.members (k ∷ rest')) same p in
      Permᴰ.trans p' (
        Permᴰ.cons refl (
          PermD.symm
            (e.members_list.erase-perm d.members name rest' p' (Apart-perm itself p' h.names).0)))

module _ (e : Env) (g : Group) (d : DaemonMembers) (rest : List DaemonMembers) (name n : Name)
    (h : HasDaemon e g d rest) (m : get_member e d name ≡ some n) (r : List ℕ)
    (b : Perm (map some r) (
      map
        (box e)
        (local_members e (without_member e d name) ++ gather (local_members e) rest))) where
  abbrev left : DaemonMembers
  left = without_member e d name

  abbrev taken : Group
  taken = take_out e (record g { mboxes = r }) d name

  taken-HasDaemon : HasDaemon e taken left rest
  taken-HasDaemon = record {
    perm = write-perm d left g.daemons rest h.perm h.apart refl;
    apart = h.apart;
    names = (Apart-perm itself (left-perm e g d rest name n h m) h.names).1;
    full = h.full;
    count = omega (arith, h.count, length-perm (left-perm e g d rest name n h m));
    boxes = b;
    marked = h.marked;
    listed = h.listed;
  }

  pub extract_member-IsWhole :
      IsMarked g.changed d
      → (g' : Group) × (extract_member e (record g { mboxes = r }) d name ≡ some g')
        × IsWhole e g'
        × (g'.name ≡ g.name)
        × (g'.grp_id ≡ g.grp_id)
        × (g'.changed ≡ g.changed)
  unfolding extract_member
  extract_member-IsWhole k = elim (List-cases left.members) [
    | inl z ↦
        let (g', q, w) = remove_daemon-IsRemoved e taken left rest taken-HasDaemon (none_local z) in
        (g', ap (drop_if_empty e taken left) z ∙ q, w.whole, w.same_name, w.same_id, w.same_mark)
    | inr (x, xs, z) ↦ (
      taken,
      ap (drop_if_empty e taken left) z,
      IsWhole-HasDaemon e taken left rest taken-HasDaemon
          (subst (λ l. 0 < length l) (sym z) (omega arith), taken-HasDaemon.names) k,
      refl,
      refl,
      refl,
    )
  ]
    where
      none_local : left.members ≡ [] → local_members e left ≡ []
      none_local z = ground arith
