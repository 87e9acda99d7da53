-- ===== src/Groups/Whole/Daemon.antt =====
-- daemon/groups.c: what the state of the groups keeps to, and that G_handle_join keeps it.
use mathlib.Core.List.{Permᴰ}
use mathlib.Core.List.Perm
use mathlib.Core.List.Permᴰ as PermD
use mathlib.Core.Option.{none-ne-some, some-injective}
use in5020_distribuerte_syst.Prelude.{
  ℕ, suc, ◌<◌, ◌≡◌, ◌≢◌, refl, sym, ap, ◌∙◌, subst, false, List, [], ◌∷◌, map, Option, none, some,
  length, ◌>>=◌, arith, All, All-imp, All-perm, Apart, Apart-perm, map_fixed, length-perm, ◌⊎◌, inl,
  inr,
}
use in5020_distribuerte_syst.Conf.{Proc}
use in5020_distribuerte_syst.Groups.{
  Name, Group, Env, Notice, Phase, gop, gtrans, ggather, ggt, name_dec, is_unknown_memb_id,
  get_group, write_group, IsListed,
}
use in5020_distribuerte_syst.Groups.State.{State}
use in5020_distribuerte_syst.Groups.Names.{names_of, proc_by_name}
use in5020_distribuerte_syst.Groups.Handlers.{
  group_or_new, new_group, join_group, commit, if_serving, join_as, handle_join,
}
use in5020_distribuerte_syst.Groups.Whole.{IsWhole}
use in5020_distribuerte_syst.Groups.Whole.Join.{HasSession, Joined, join_group-IsWhole}

abbrev pub name_of : Group → Name
name_of g = g.name

-- A group that is whole and not empty, with a known membership, and unchanged in GOP.
pub record IsKept (e : Env) (phase : Phase) (g : Group) : Type 0 where
  pub whole : IsWhole e g
  pub some_left : 0 < g.num_members
  pub known : is_unknown_memb_id g.grp_id.memb_id ≡ false
  pub calm : phase ≡ gop → g.changed ≡ false

-- The groups are different, each is kept, they are counted, and the memberships are known.
pub record IsSound (e : Env) (s : State) : Type 0 where
  pub names : Apart name_of s.groups
  pub kept : All (IsKept e s.phase) s.groups
  pub counted : s.num_groups ≡ length s.groups
  pub reg_known : is_unknown_memb_id s.reg_memb_id ≡ false
  pub trans_known : is_unknown_memb_id s.trans_memb_id ≡ false

-- The table finds each of its processes by the id.
abbrev pub FindsAll : List Proc → Type 0
FindsAll table = All (λ p. IsListed table p.id) table

named-All :
    (P : Proc → Type 0) (ps : List Proc) (name : Name)
    → All P ps
    → (p : Proc) → proc_by_name ps name ≡ some p
    → P p
named-All P [] name a p f = absurd (none-ne-some p f)
named-All P (q ∷ ps) name a p f = pick (name_dec q.name name) f (named-All P ps name a.1 p)
  where
    pick :
        (o : Dec (q.name ≡ name))
        → elim o [ yes _ ↦ some q | no _ ↦ proc_by_name ps name ] ≡ some p
        → (proc_by_name ps name ≡ some p → P p)
        → P p
    pick (yes _) h ih = subst P (some-injective q p h) a.0
    pick (no _) h ih = ih h

pub proc_by_name-IsListed :
    (table : List Proc) (name : Name)
    → FindsAll table
    → (p : Proc) → proc_by_name table name ≡ some p
    → IsListed table p.id
proc_by_name-IsListed table name a p f = named-All (λ q. IsListed table q.id) table name a p f

-- A group that is written back under its name.
pub write_group-perm :
    (g c : Group) (gs rest : List Group)
    → Permᴰ gs (g ∷ rest)
    → Apart name_of (g ∷ rest)
    → c.name ≡ g.name
    → Permᴰ (write_group c gs) (c ∷ rest)
write_group-perm g c gs rest p a same =
    Permᴰ.trans (PermD.map _ p) (Permᴰ.cons here (subst (Permᴰ _) others (PermD.refl _)))
  where
    here : elim (name_dec g.name c.name) [ yes _ ↦ c | no _ ↦ g ] ≡ c
    here = ground (arith, same)

    other :
        (b : Group) → g.name ≢ b.name → elim (name_dec b.name c.name) [ yes _ ↦ c | no _ ↦ b ] ≡ b
    other b ne = skip (λ p. ne (sym same ∙ sym p)) (name_dec b.name c.name)
      where
        skip : b.name ≢ c.name → (o : Dec (b.name ≡ c.name)) → elim o [ yes _ ↦ c | no _ ↦ b ] ≡ b
        skip n (yes p) = absurd (n p)
        skip n (no _) = refl

    others : map (λ b. elim (name_dec b.name c.name) [ yes _ ↦ c | no _ ↦ b ]) rest ≡ rest
    others = map_fixed _ rest (All-imp other rest a.0)

-- A group is exchanged for one of the same name.
pub commit-IsSound :
    (e : Env) (s : State) (g c : Group) (rest : List Group) (told : List (ℕ × Notice))
    → Permᴰ s.groups (g ∷ rest)
    → Apart name_of (g ∷ rest)
    → All (IsKept e s.phase) rest
    → s.num_groups ≡ suc (length rest)
    → is_unknown_memb_id s.reg_memb_id ≡ false
    → is_unknown_memb_id s.trans_memb_id ≡ false
    → c.name ≡ g.name
    → IsKept e s.phase c
    → IsSound e (commit s (c, told))
commit-IsSound e s g c rest told p a k n r t same kc =
    let q : Permᴰ (c ∷ rest) (write_group c s.groups) =
      PermD.symm (write_group-perm g c s.groups rest p a same) in
    record {
      names = Apart-perm name_of q (subst (λ m. All (λ y. m ≢ name_of y) rest) (sym same) a.0, a.1);
      kept = All-perm (IsKept e s.phase) q (kc, k);
      counted = n ∙ length-perm q;
      reg_known = r;
      trans_known = t;
    }

Joined-IsKept :
    (e : Env) (phase : Phase) (g c : Group)
    → Joined e (phase ≡ gop) g c
    → is_unknown_memb_id g.grp_id.memb_id ≡ false
    → (phase ≡ gop → g.changed ≡ false)
    → IsKept e phase c
Joined-IsKept e phase g c v k u = record {
  whole = v.whole;
  some_left = v.some_left;
  known = rw (v.same_id) k;
  calm = λ z. v.stays z k (u z);
}

new_group-IsWhole : (e : Env) (s : State) (name : Name) → IsWhole e (new_group s name)
new_group-IsWhole e s name = record {
  apart = tt;
  full = tt;
  count = refl;
  boxes = Perm.refl [];
  marked = tt;
  listed = tt;
}

new_known :
    (e : Env) (s : State)
    → IsSound e s
    → (phase : Phase)
    → is_unknown_memb_id (elim phase [ gop ↦ s.reg_memb_id | _ ↦ s.trans_memb_id ]) ≡ false
new_known e s i gop = i.reg_known
new_known e s i gtrans = i.trans_known
new_known e s i ggather = i.trans_known
new_known e s i ggt = i.trans_known

module _ (e : Env) (s : State) (i : IsSound e s) (name group_name : Name) (p : Proc)
    (listed : IsListed e.table p.id) (session : HasSession e p.id name) where
  -- The group to join is there, or new.
  join_found :
      (o : Option Group)
      → get_group e s.groups group_name ≡ o
      → (j : Group × List (ℕ × Notice)) × (join_group e
            (group_or_new e s group_name o).1
            (group_or_new e s group_name o).0
            p.id
            name
            (names_of e name).0
          ≡ some j)
        × IsSound e (commit (group_or_new e s group_name o).1 j)
  join_found (some g) f =
      let perm = (e.groups_list.find-some s.groups group_name g f).2 in
      let k = All-perm (IsKept e s.phase) perm i.kept in
      let (j, r, v) = join_group-IsWhole e s g p.id name (k.0).whole listed session in
      (
        j,
        r,
        commit-IsSound e s g j.0 _ j.1 perm (Apart-perm name_of perm i.names) k.1
            (i.counted ∙ length-perm perm) i.reg_known i.trans_known v.same_name
            (Joined-IsKept e s.phase g j.0 v ((k.0).known) ((k.0).calm)),
      )
  join_found none f =
      let g = new_group s group_name in
      let perm = e.groups_list.put-perm s.groups g f in
      let (j, r, v) =
        join_group-IsWhole e (group_or_new e s group_name none).1 g p.id name
          (new_group-IsWhole e s group_name) listed session in
      (
        j,
        r,
        commit-IsSound e (group_or_new e s group_name none).1 g j.0 s.groups j.1 perm
            (
              All-imp (λ c ne q. ne (sym q)) s.groups (e.groups_list.find-none s.groups _ f),
              i.names,
            )
            i.kept (ap suc i.counted) i.reg_known i.trans_known v.same_name
            (Joined-IsKept e s.phase g j.0 v (new_known e s i s.phase) (λ _. refl)),
      )

pub if_serving-eq {ℓ} :
    {A : Type ℓ} (phase : Phase)
    → (phase ≡ gop) ⊎ (phase ≡ gtrans)
    → (t : Option A) → if_serving phase t ≡ t
if_serving-eq phase (inl p) t = ap (λ q. if_serving q t) p
if_serving-eq phase (inr p) t = ap (λ q. if_serving q t) p

-- In GOP and GTRANS, where the groups of the daemon are sound (their names differ, they are
-- counted, each is not empty, has distinct daemons with distinct members, counts the members, has
-- exactly the mailboxes of the local ones, is changed where a daemon is partitioned, and in GOP is
-- not changed; the configuration finds each of their daemons by its id; the memberships are known)
-- and the configuration finds each of its processes by the id: G_handle_join of a name whose daemon
-- is in the configuration, with a session where that is this daemon, returns, without an exit or a
-- failing assertion, and leaves the groups sound.
pub handle_join-IsSound :
    (e : Env) (s : State) (name group_name : Name) (p : Proc)
    → (s.phase ≡ gop) ⊎ (s.phase ≡ gtrans)
    → IsSound e s
    → FindsAll e.table
    → proc_by_name e.table (names_of e name).1 ≡ some p
    → HasSession e p.id name
    → (s' : State) × (handle_join e s name group_name ≡ some s') × IsSound e s'
unfolding handle_join
handle_join-IsSound e s name group_name p ph i t f session =
    let listed = proc_by_name-IsListed e.table _ t p f in
    let (j, r, v) = join_found e s i name group_name p listed session _ refl in
    (
      _,
      if_serving-eq s.phase ph _
          ∙ ap (join_as e s name group_name) f
          ∙ ap
              (λ o. o >>= λ k.
                some (commit (group_or_new e s group_name (get_group e s.groups group_name)).1 k))
              r,
      v,
    )
