-- ===== src/Groups/Whole/Cut.antt =====
-- daemon/groups.c: G_handle_trans_memb keeps the state of the groups.
use mathlib.Core.Bool.{true≢false}
use in5020_distribuerte_syst.Prelude.{
  suc, ◌+◌, ◌≡◌, ◌≢◌, refl, sym, ap, ◌∙◌, subst, Bool, true, false, List, [], ◌∷◌, ◌++◌, some,
  length, All, All-of, All-map, All-both, All-imp, is_none, ◌||◌, if◌then◌else◌, Bool-cases, inl,
  inr, Apart, sum, gather,
}
use in5020_distribuerte_syst.Conf.{Configuration, id_in_conf}
use in5020_distribuerte_syst.Prot.Store.{MembershipId}
use in5020_distribuerte_syst.Groups.{
  Name, Group, DaemonMembers, Env, relabel, update_daemon_memb_ids, IsListed, AllListed,
  is_partitioned_daemon, unknown_memb_id, gop, gtrans, is_unknown_memb_id,
}
use in5020_distribuerte_syst.Groups.State.{State}
use in5020_distribuerte_syst.Groups.Memberships.{
  is_away, is_cut, cut_as, cut_groups, mark_daemons, trans_in, handle_trans_memb,
}
use in5020_distribuerte_syst.Groups.Whole.{IsWhole, IsFull, IsMarked, id_of, size_of, local_members}
use in5020_distribuerte_syst.Groups.Whole.Daemon.{IsKept, IsSound, name_of}

module _ (new : DaemonMembers → MembershipId) where
  relabel-Apart : (ds : List DaemonMembers) → Apart id_of ds → Apart id_of (relabel new ds)
  relabel-Apart [] a = tt
  relabel-Apart (d ∷ ds) a =
      (All-map (λ c. d.proc_id ≢ c.proc_id) _ (λ c ne. ne) ds a.0, relabel-Apart ds a.1)

  relabel-size : (ds : List DaemonMembers) → sum size_of (relabel new ds) ≡ sum size_of ds
  relabel-size [] = refl
  relabel-size (d ∷ ds) = ap (λ k. length d.members + k) (relabel-size ds)

  relabel-local :
      (e : Env) (ds : List DaemonMembers)
      → gather (local_members e) (relabel new ds) ≡ gather (local_members e) ds
  relabel-local e [] = refl
  relabel-local e (d ∷ ds) = ap (λ l. local_members e d ++ l) (relabel-local e ds)

  relabel-listed :
      (e : Env) (ds : List DaemonMembers)
      → AllListed e.table ds
      → AllListed e.table (relabel new ds)
  relabel-listed e ds l = All-map (λ c. IsListed e.table c.proc_id) _ (λ d k. k) ds l

  pub relabel-marked-IsWhole :
      (e : Env) (g g' : Group)
      → IsWhole e g
      → g'.daemons ≡ relabel new g.daemons
      → g'.num_members ≡ g.num_members
      → g'.mboxes ≡ g.mboxes
      → All (IsMarked g'.changed) g'.daemons
      → IsWhole e g'
  relabel-marked-IsWhole e g g' w ds n ms m = record {
    apart = rw ds (relabel-Apart g.daemons w.apart);
    full = rw ds (All-map IsFull _ (λ d f. f) g.daemons w.full);
    count = n ∙ w.count ∙ sym (relabel-size g.daemons) ∙ ap (sum size_of) (sym ds);
    boxes = rw (ds, ms, relabel-local e g.daemons) w.boxes;
    marked = m;
    listed = rw ds (relabel-listed e g.daemons w.listed);
  }

  -- A changed group stays whole.
  relabel-IsWhole :
      (e : Env) (g g' : Group)
      → IsWhole e g
      → g'.daemons ≡ relabel new g.daemons
      → g'.num_members ≡ g.num_members
      → g'.mboxes ≡ g.mboxes
      → g'.changed ≡ true
      → IsWhole e g'
  relabel-IsWhole e g g' w ds n ms c =
      relabel-marked-IsWhole e g g' w ds n ms (All-of (IsMarked g'.changed) (λ d p. c) g'.daemons)

gtrans≢gop : gtrans ≢ gop
gtrans≢gop p = subst (λ q. elim q [ gtrans ↦ Unit {0} | _ ↦ ⊥ ]) p tt

-- A daemon is partitioned exactly where the membership does not have it.
abbrev pub ShowsAway : Configuration → DaemonMembers → Type 0
ShowsAway memb d = is_partitioned_daemon d ≡ is_none (id_in_conf memb d.proc_id)

abbrev pub IsThere : Configuration → DaemonMembers → Type 0
IsThere memb d = is_none (id_in_conf memb d.proc_id) ≡ false

-- A group after the membership: it shows who is away, and is unchanged where nobody is.
pub record IsMarkedBy (memb : Configuration) (g : Group) : Type 0 where
  pub shown : All (ShowsAway memb) g.daemons
  pub calm : All (IsThere memb) g.daemons → g.changed ≡ false

is_cut-false :
    (memb : Configuration) (ds : List DaemonMembers)
    → is_cut memb ds ≡ false
    → All (IsThere memb) ds
is_cut-false memb [] h = tt
is_cut-false memb (d ∷ ds) h = elim (Bool-cases (is_away memb d)) [
  | inl away ↦ absurd (true≢false (sym (rw away refl) ∙ h))
  | inr there ↦ (there, is_cut-false memb ds (sym (rw there refl) ∙ h))
]

is_cut-there :
    (memb : Configuration) (ds : List DaemonMembers)
    → All (IsThere memb) ds
    → is_cut memb ds ≡ false
is_cut-there memb [] a = refl
is_cut-there memb (d ∷ ds) a = rw (a.0) (is_cut-there memb ds a.1)

is_cut-relabel :
    (memb : Configuration) (new : DaemonMembers → MembershipId) (ds : List DaemonMembers)
    → is_cut memb (relabel new ds) ≡ is_cut memb ds
is_cut-relabel memb new [] = refl
is_cut-relabel memb new (d ∷ ds) = ap (λ b. is_away memb d || b) (is_cut-relabel memb new ds)

-- In GOP no daemon is partitioned.
established :
    (e : Env) (g : Group) → IsKept e gop g → All (λ d. is_partitioned_daemon d ≡ false) g.daemons
established e g k =
    All-imp
      (λ d m. elim (Bool-cases (is_partitioned_daemon d)) [
        | inr no_mark ↦ no_mark
        | inl mark ↦ absurd (true≢false (sym (m mark) ∙ k.calm refl))
      ])
      g.daemons (k.whole).marked

mark-ShowsAway :
    (memb : Configuration) (d : DaemonMembers)
    → is_partitioned_daemon d ≡ false
    → ShowsAway memb (record d { memb_id = if is_away memb d then unknown_memb_id else d.memb_id })
mark-ShowsAway memb d est = elim (Bool-cases (is_away memb d)) [
  | inl away ↦ rw away refl
  | inr there ↦ rw there est
]

update-ShowsAway :
    (memb : Configuration) (id : MembershipId) (d : DaemonMembers)
    → is_unknown_memb_id id ≡ false
    → ShowsAway memb d
    → ShowsAway memb (record d { memb_id = if is_partitioned_daemon d then d.memb_id else id })
update-ShowsAway memb id d known h = elim (Bool-cases (is_partitioned_daemon d)) [
  | inl mark ↦ ap (λ b. is_unknown_memb_id (if b then d.memb_id else id)) mark ∙ h
  | inr no_mark ↦
      ap (λ b. is_unknown_memb_id (if b then d.memb_id else id)) no_mark ∙ known ∙ sym no_mark ∙ h
]

cut_as-IsMarkedBy :
    (e : Env) (memb : Configuration) (id : MembershipId) (g : Group) (b : Bool)
    → is_cut memb g.daemons ≡ b
    → is_unknown_memb_id id ≡ false
    → IsKept e gop g
    → IsMarkedBy memb (cut_as e memb id g b).0
unfolding cut_as update_daemon_memb_ids
cut_as-IsMarkedBy e memb id g false c known k = record {
  shown =
      All-both g.daemons (established e g k) (is_cut-false memb g.daemons c)
        (λ d est there. est ∙ sym there);
  calm = λ _. k.calm refl;
}
cut_as-IsMarkedBy e memb id g true c known k = record {
  shown =
      All-map (ShowsAway memb) _ (λ d h. update-ShowsAway memb id d known h)
        (mark_daemons memb g.daemons)
        (All-map (ShowsAway memb) _ (λ d est. mark-ShowsAway memb d est) g.daemons
          (established e g k));
  calm = λ a. absurd (
      true≢false (
        sym c
        ∙ sym (is_cut-relabel memb _ g.daemons)
        ∙ sym (is_cut-relabel memb _ _)
        ∙ is_cut-there memb _ a));
}

cut_groups-IsMarkedBy :
    (e : Env) (memb : Configuration) (id : MembershipId) (gs : List Group)
    → is_unknown_memb_id id ≡ false
    → All (IsKept e gop) gs
    → All (IsMarkedBy memb) (cut_groups e memb id gs).0
cut_groups-IsMarkedBy e memb id [] known k = tt
cut_groups-IsMarkedBy e memb id (g ∷ gs) known k =
    (cut_as-IsMarkedBy e memb id g _ refl known k.0, cut_groups-IsMarkedBy e memb id gs known k.1)

-- What becomes of a group.
record IsCut (e : Env) (g g' : Group) : Type 0 where
  kept : IsKept e gtrans g'
  same_name : g'.name ≡ g.name

cut_as-IsCut :
    (e : Env) (memb : Configuration) (id : MembershipId) (g : Group) (b : Bool)
    → is_unknown_memb_id id ≡ false
    → IsKept e gop g
    → IsCut e g (cut_as e memb id g b).0
unfolding cut_as update_daemon_memb_ids
cut_as-IsCut e memb id g false known k = record {
  kept = record {
    whole = k.whole;
    some_left = k.some_left;
    known = k.known;
    calm = λ p. absurd (gtrans≢gop p);
  };
  same_name = refl;
}
cut_as-IsCut e memb id g true known k =
    let marked : Group = record g { daemons = mark_daemons memb g.daemons; changed = true } in
    let w : IsWhole e marked = relabel-IsWhole _ e g marked k.whole refl refl refl refl in
    record {
      kept = record {
        whole = relabel-IsWhole _ e marked _ w refl refl refl refl;
        some_left = k.some_left;
        known = known;
        calm = λ p. absurd (gtrans≢gop p);
      };
      same_name = refl;
    }

-- All groups, in their places.
cut_groups-Apart :
    (e : Env) (memb : Configuration) (id : MembershipId) (gs : List Group)
    → is_unknown_memb_id id ≡ false
    → All (IsKept e gop) gs
    → (n : Name) → All (λ g. n ≢ g.name) gs
    → All (λ g. n ≢ g.name) (cut_groups e memb id gs).0
cut_groups-Apart e memb id [] known k n a = tt
cut_groups-Apart e memb id (g ∷ gs) known k n a = (
  λ p. a.0 (p ∙ (cut_as-IsCut e memb id g _ known k.0).same_name),
  cut_groups-Apart e memb id gs known k.1 n a.1,
)

cut_groups-names :
    (e : Env) (memb : Configuration) (id : MembershipId) (gs : List Group)
    → is_unknown_memb_id id ≡ false
    → All (IsKept e gop) gs
    → Apart name_of gs
    → Apart name_of (cut_groups e memb id gs).0
cut_groups-names e memb id [] known k a = tt
cut_groups-names e memb id (g ∷ gs) known k a = (
  subst (λ n. All (λ c. n ≢ c.name) (cut_groups e memb id gs).0)
      (sym (cut_as-IsCut e memb id g _ known k.0).same_name)
      (cut_groups-Apart e memb id gs known k.1 g.name a.0),
  cut_groups-names e memb id gs known k.1 a.1,
)

cut_groups-IsKept :
    (e : Env) (memb : Configuration) (id : MembershipId) (gs : List Group)
    → is_unknown_memb_id id ≡ false
    → All (IsKept e gop) gs
    → All (IsKept e gtrans) (cut_groups e memb id gs).0
cut_groups-IsKept e memb id [] known k = tt
cut_groups-IsKept e memb id (g ∷ gs) known k =
    ((cut_as-IsCut e memb id g _ known k.0).kept, cut_groups-IsKept e memb id gs known k.1)

length-cut_groups :
    (e : Env) (memb : Configuration) (id : MembershipId) (gs : List Group)
    → length (cut_groups e memb id gs).0 ≡ length gs
length-cut_groups e memb id [] = refl
length-cut_groups e memb id (g ∷ gs) = ap suc (length-cut_groups e memb id gs)

-- In GOP, where the groups of the daemon are sound (different and counted; each not empty, its
-- members distinct and counted, its mailboxes those of the local members, marked as changed where a
-- daemon is partitioned, its daemons distinct and each found by its id in the configuration) and
-- the id of the transitional membership is known: G_handle_trans_memb returns, goes to GTRANS, and
-- leaves the groups sound; in each of them exactly the daemons that the transitional membership
-- does not have are partitioned, and the group is unchanged where it has all of them.
pub handle_trans_memb-IsSound :
    (e : Env) (s : State) (memb : Configuration) (id : MembershipId)
    → s.phase ≡ gop
    → is_unknown_memb_id id ≡ false
    → IsSound e s
    → (s' : State) × (handle_trans_memb e s memb id ≡ some s')
      × (s'.phase ≡ gtrans)
      × IsSound e s'
      × All (IsMarkedBy memb) s'.groups
unfolding handle_trans_memb
handle_trans_memb-IsSound e s memb id p known i =
    let k : All (IsKept e gop) s.groups = subst (λ q. All (IsKept e q) s.groups) p i.kept in
    (
      _,
      ap (trans_in e s memb id) p,
      refl,
      record {
        names = cut_groups-names e memb id s.groups known k i.names;
        kept = cut_groups-IsKept e memb id s.groups known k;
        counted = i.counted ∙ sym (length-cut_groups e memb id s.groups);
        reg_known = i.reg_known;
        trans_known = known;
      },
      cut_groups-IsMarkedBy e memb id s.groups known k,
    )
