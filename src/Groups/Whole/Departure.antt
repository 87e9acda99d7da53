-- ===== src/Groups/Whole/Departure.antt =====
-- daemon/groups.c: a group that a member has left is bare and removed, or told.
use mathlib.Core.List.{Perm, Permᴰ, cons≢nil}
use mathlib.Core.List.Perm
use mathlib.Core.List.Permᴰ as PermD
use in5020_distribuerte_syst.Prelude.{
  ℕ, suc, ◌-◌, ◌≡◌, refl, sym, ap, ◌∙◌, subst, true, false, ◌==◌, ==_iff, List, [], ◌∷◌, ◌++◌, map,
  some, >>=-Returns, if-true, if-Returns, length, arith, All, All-perm, Apart, Apart-perm, sum,
  gather, length-perm, Bool-cases, Option-cases, inl, inr,
}
use in5020_distribuerte_syst.Groups.{
  Name, Group, DaemonMembers, Env, Notice, Cause, gop, is_unknown_memb_id, get_group, AllListed,
}
use in5020_distribuerte_syst.Groups.Notices.{send_lightweight_memb}
use in5020_distribuerte_syst.Groups.Notices.Sets.{send_heavyweight_memb-Returns}
use in5020_distribuerte_syst.Groups.State.{State}
use in5020_distribuerte_syst.Groups.Departures.{
  next_index, tell_departure, remove_bare, remove_listed, remove_group, settle_departure,
}
use in5020_distribuerte_syst.Groups.Handlers.{commit}
use in5020_distribuerte_syst.Groups.Whole.{
  IsWhole, IsFull, id_of, size_of, box, local_members, if_any-Returns,
}
use in5020_distribuerte_syst.Groups.Whole.Daemon.{
  IsKept, IsSound, name_of, commit-IsSound, write_group-perm,
}

no_daemons : (ds : List DaemonMembers) → All IsFull ds → sum size_of ds ≡ 0 → ds ≡ []
no_daemons [] f z = refl
no_daemons (d ∷ ds) f z = absurd (omega (arith, (f.0).0))

no_mboxes : (ms : List ℕ) → Perm (map some ms) [] → ms ≡ []
no_mboxes [] p = refl
no_mboxes (m ∷ ms) p = absurd (cons≢nil (Perm.eq-nil p))

tell_departure-Returns :
    (e : Env) (g : Group) (caused : Cause) (name : Name)
    → AllListed e.table g.daemons
    → Apart id_of g.daemons
    → (t : List (ℕ × Notice)) × (tell_departure e g caused name ≡ some t)
tell_departure-Returns e g caused name l a = if_any-Returns g.mboxes _ (
    if-Returns g.changed _ _ (>>=-Returns _ _ (send_heavyweight_memb-Returns e g l a))
      (send_lightweight_memb e g caused name, refl))

-- A sound state with one of its groups apart.
pub record HasGroup (e : Env) (s : State) (g : Group) (rest : List Group) : Type 0 where
  pub perm : Permᴰ s.groups (g ∷ rest)
  pub names : Apart name_of (g ∷ rest)
  pub kept : All (IsKept e s.phase) rest
  pub counted : s.num_groups ≡ suc (length rest)
  pub reg_known : is_unknown_memb_id s.reg_memb_id ≡ false
  pub trans_known : is_unknown_memb_id s.trans_memb_id ≡ false

-- What may become of the group.
pub record Departed (e : Env) (s : State) (g c : Group) : Type 0 where
  pub whole : IsWhole e c
  pub same_name : c.name ≡ g.name
  pub known : is_unknown_memb_id c.grp_id.memb_id ≡ false
  pub calm : s.phase ≡ gop → c.changed ≡ false

-- A group that is listed is found.
get_group-finds :
    (e : Env) (g c : Group) (gs rest : List Group)
    → Permᴰ gs (g ∷ rest)
    → c.name ≡ g.name
    → (a : Group) × (get_group e gs c.name ≡ some a)
get_group-finds e g c gs rest p same = elim (Option-cases (get_group e gs c.name)) [
  | inr found ↦ found
  | inl lost ↦ absurd ((All-perm _ p (e.groups_list.find-none gs c.name lost)).0 (sym same))
]

-- A whole group with no member is bare.
pub remove_whole-eq :
    (e : Env) (s : State) (g c : Group) (rest : List Group)
    → Permᴰ s.groups (g ∷ rest)
    → c.name ≡ g.name
    → IsWhole e c
    → (c.num_members == 0) ≡ true
    → remove_group e s c
      ≡ some
          (record s { groups = e.groups_list.erase s.groups c.name; num_groups = s.num_groups - 1 })
unfolding remove_group
remove_whole-eq e s g c rest p same w z =
    let (a, found) = get_group-finds e g c s.groups rest p same in
    let ds : c.daemons ≡ [] =
      no_daemons c.daemons w.full (sym w.count ∙ (==_iff c.num_members 0).0 z) in
    let ms : c.mboxes ≡ [] = no_mboxes c.mboxes (
      subst (λ l. Perm (map some c.mboxes) (map (box e) (gather (local_members e) l))) ds
        w.boxes) in
    ap (λ l. remove_bare e s c l c.mboxes) ds
    ∙ ap (remove_bare e s c []) ms
    ∙ ap (remove_listed e s c) found

-- A sound state with these groups, and at most one more.
pub record IsSettled (e : Env) (rest : List Group) (s : State) : Type 0 where
  pub sound : IsSound e s
  pub more : List Group
  pub perm : Permᴰ s.groups (more ++ rest)

pub settle_departure-IsSound :
    (e : Env) (s : State) (g c : Group) (rest : List Group) (caused : Cause) (name : Name)
    → HasGroup e s g rest
    → Departed e s g c
    → (s' : State) × (settle_departure e s c caused name ≡ some s') × IsSettled e rest s'
settle_departure-IsSound e s g c rest caused name h k = elim (Bool-cases (c.num_members == 0)) [
  | inl z ↦
      let q : Permᴰ rest (e.groups_list.erase s.groups c.name) = PermD.symm (
        subst (λ n. Permᴰ (e.groups_list.erase s.groups n) rest) (sym k.same_name)
          (e.groups_list.erase-perm s.groups g rest h.perm h.names.0)) in
      (
        record s { groups = e.groups_list.erase s.groups c.name; num_groups = s.num_groups - 1 },
        if-true _ _ _ _ z (remove_whole-eq e s g c rest h.perm k.same_name k.whole z),
        record {
          sound = record {
            names = Apart-perm name_of q h.names.1;
            kept = All-perm (IsKept e s.phase) q h.kept;
            counted = omega (arith, h.counted, length-perm q);
            reg_known = h.reg_known;
            trans_known = h.trans_known;
          };
          more = [];
          perm = PermD.symm q;
        },
      )
  | inr z ↦
      let (t, r) =
        tell_departure-Returns e (next_index c) caused name (k.whole).listed (k.whole).apart in
      (
        commit s (next_index c, t),
        rw (z, r) refl,
        record {
          sound =
              commit-IsSound e s g (next_index c) rest t h.perm h.names h.kept h.counted h.reg_known
                h.trans_known k.same_name
                (record {
                  whole = record {
                    apart = (k.whole).apart;
                    full = (k.whole).full;
                    count = (k.whole).count;
                    boxes = (k.whole).boxes;
                    marked = (k.whole).marked;
                    listed = (k.whole).listed;
                  };
                  some_left = ground (arith, z);
                  known = k.known;
                  calm = k.calm;
                });
          more = next_index c ∷ [];
          perm = write_group-perm g (next_index c) s.groups rest h.perm h.names k.same_name;
        },
      )
]
