-- ===== src/Groups.antt =====
-- daemon/groups.c and daemon/sess_body.h: the groups of this daemon, their daemons and members. A
-- pointer is the structure that it points to, and one changed through its pointer is written back
-- in its place.
pub mod Listed
pub mod Notices
pub mod State
pub mod Names
pub mod Handlers
pub mod Departures
pub mod Gathering
pub mod Memberships
pub mod Exchange
pub mod Whole
use mathlib.Core.List.{Permᴰ, cons≢nil, head-eq_of_cons-eq, tail-eq_of_cons-eq}
use native.Mathlib.Decide.{ℕ_discrete}
use in5020_distribuerte_syst.Prelude.{
  ℕ, ◌+◌, ◌-◌, ◌%◌, Bool, not, ◌==◌, if◌then◌else◌, List, [], ◌∷◌, map, Option, none, some, ◌≡◌,
  ◌≢◌, refl, sym, All, Apart, length, ℤ, pos, negsuc, sub_ℕ, ◌>>=◌,
}
use in5020_distribuerte_syst.Conf.{Proc, proc_by_id}
use in5020_distribuerte_syst.Prot.Store.{MembershipId}

-- A `char` array up to its null.
abbrev pub Name : Type 0
Name = List ℕ

-- `strcmp` is 0.
unfoldable pub name_dec : Discrete Name
unfolding ℕ_discrete
name_dec [] [] = yes refl
name_dec [] (y ∷ ys) = no (λ e. cons≢nil (sym e))
name_dec (x ∷ xs) [] = no (λ e. cons≢nil e)
name_dec (x ∷ xs) (y ∷ ys) = elim (ℕ_discrete x y) [
  | no n ↦ no (λ e. n (head-eq_of_cons-eq e))
  | yes p ↦ elim (name_dec xs ys) [
    | no n ↦ no (λ e. n (tail-eq_of_cons-eq e))
    | yes q ↦ yes (λ i. p i ∷ q i)
  ]
]

pub record GroupId : Type 0 where
  pub memb_id : MembershipId
  pub index : ℕ

-- `members` is what the iterator of `MembersList` visits.
pub record DaemonMembers : Type 0 where
  pub proc_id : ℕ
  pub memb_id : MembershipId
  pub members : List Name

pub record Group : Type 0 where
  pub name : Name
  pub grp_id : GroupId
  pub changed : Bool
  pub num_members : ℕ
  pub daemons : List DaemonMembers
  pub mboxes : List ℕ

-- The calls of stdskl for a list in which no two elements compare equal: stdskl_find, stdskl_put,
-- and stdskl_find with stdskl_erase. What the list holds is the sequence that its iterator visits;
-- where an element is put is up to the list.
pub record Skiplist {A K : Type 0} (key : A → K) : Type 0 where
  pub find : List A → K → Option A
  pub put : List A → A → List A
  pub erase : List A → K → List A
  pub find-some :
      (xs : List A) (k : K) (a : A)
      → find xs k ≡ some a
      → (key a ≡ k) × (rest : List A) × Permᴰ xs (a ∷ rest)
  pub find-none : (xs : List A) (k : K) → find xs k ≡ none → All (λ a. key a ≢ k) xs
  pub erase-perm :
      (xs : List A) (a : A) (rest : List A)
      → Permᴰ xs (a ∷ rest)
      → All (λ b. key a ≢ key b) rest
      → Permᴰ (erase xs (key a)) rest
  pub put-perm : (xs : List A) (a : A) → find xs (key a) ≡ none → Permᴰ (put xs a) (a ∷ xs)

-- `G_compare_proc_ids_by_conf`: the difference of the places in `Config_procs`. `none` is an assertion
-- that fails, on a process that is not there.
unfoldable pub compare_proc_ids_by_conf : List Proc → ℕ → ℕ → Option ℤ
compare_proc_ids_by_conf table a b =
    proc_by_id table a >>= λ x. proc_by_id table b >>= λ y. some (sub_ℕ x.0 y.0)

-- The calls of stdskl for a list of daemons, which is kept by this comparison; `none` is an assertion
-- that fails in it. Which elements a call compares is up to the list. It fails in none if the key
-- compares with all elements; it finds an element only if that compares equal, and overlooks none.
pub record DaemonsList (table : List Proc) : Type 0 where
  pub find : List DaemonMembers → ℕ → Option (Option DaemonMembers)
  pub put : List DaemonMembers → DaemonMembers → Option (List DaemonMembers)
  pub erase : List DaemonMembers → ℕ → List DaemonMembers
  pub find-Returns :
      (ds : List DaemonMembers) (id : ℕ)
      → All (λ d. (c : ℤ) × (compare_proc_ids_by_conf table d.proc_id id ≡ some c)) ds
      → (o : Option DaemonMembers) × (find ds id ≡ some o)
  pub find-some :
      (ds : List DaemonMembers) (id : ℕ) (d : DaemonMembers)
      → find ds id ≡ some (some d)
      → (compare_proc_ids_by_conf table d.proc_id id ≡ some (pos 0))
        × (rest : List DaemonMembers) × Permᴰ ds (d ∷ rest)
  pub find-none :
      (ds : List DaemonMembers) (id : ℕ)
      → find ds id ≡ some none
      → All (λ d. compare_proc_ids_by_conf table d.proc_id id ≢ some (pos 0)) ds
  pub erase-perm :
      (ds : List DaemonMembers) (d : DaemonMembers) (rest : List DaemonMembers)
      → Permᴰ ds (d ∷ rest)
      → All (λ c. d.proc_id ≢ c.proc_id) rest
      → Permᴰ (erase ds d.proc_id) rest
  pub put-perm :
      (ds : List DaemonMembers) (d : DaemonMembers)
      → find ds d.proc_id ≡ some none
      → (ds' : List DaemonMembers) × (put ds d ≡ some ds') × Permᴰ ds' (d ∷ ds)

-- A process of the table, which finds it by this id.
unfoldable pub IsListed : List Proc → ℕ → Type 0
IsListed table id = (i : ℕ) × (p : Proc) × (proc_by_id table id ≡ some (i, p)) × (p.id ≡ id)

abbrev pub AllListed : List Proc → List DaemonMembers → Type 0
AllListed table ds = All (λ d. IsListed table d.proc_id) ds

-- `State` of the groups.
pub data Phase : Type 0 where
  gop gtrans ggather ggt : Phase

pub data Cause : Type 0 where
  by_join by_leave by_disconnect by_network : Cause

-- What a local member is told: a membership with its cause, group, id, number of members, the
-- members, the offset of its virtual-synchrony set and those sets; a transitional membership; or
-- that it left.
pub data Notice : Type 0 where
  membership : Cause → Name → GroupId → ℕ → List Name → ℕ → List (List Name) → Notice
  transition : Name → GroupId → Notice
  self_leave : Name → Notice

-- What the handlers read of the other parts, and of stdskl.
pub record Env : Type 0 where
  pub my : Proc
  -- `Config_procs`
  pub table : List Proc
  -- `Sessions[ ses ].mbox` for the `ses` of Sess_get_session; `none` is -1
  pub mbox_of : Name → Option ℕ
  -- Is_memb_session of the session with this mailbox
  pub is_memb : ℕ → Bool
  -- what the variables for the two names of a private group hold before they are set
  pub unset : Name × Name
  -- what a `synced_set` of a function holds before it is set
  pub unset_synced : List ℕ
  -- Message_get_data_header_size
  pub header_size : ℕ
  pub groups_list : Skiplist {A = Group} {K = Name} (λ g. g.name)
  pub daemons_list : DaemonsList table
  pub members_list : Skiplist {A = Name} {K = Name} (λ n. n)
  -- stdskl_put_seq_n into a list with G_compare_daemon_vs_set, which compares daemons of the same
  -- membership as `daemons_list` does; `none` is an assertion that fails
  pub vs_order : List DaemonMembers → Option (List DaemonMembers)
  pub vs_order-perm :
      (ds : List DaemonMembers)
      → AllListed table ds
      → Apart (λ d. d.proc_id) ds
      → (os : List DaemonMembers) × (vs_order ds ≡ some os) × Permᴰ os ds

abbrev pub unknown_memb_id : MembershipId
unknown_memb_id = record { proc_id = 4294967295; time = negsuc 0 }

abbrev pub is_unknown_memb_id : MembershipId → Bool
is_unknown_memb_id m = m.proc_id == 4294967295

abbrev pub is_partitioned_daemon : DaemonMembers → Bool
is_partitioned_daemon d = is_unknown_memb_id d.memb_id

-- A `time` as the 32 bits of its `int32`.
abbrev pub time_bits : ℤ → ℕ
time_bits (pos n) = n % 4294967296
time_bits (negsuc n) = 4294967295 - n % 4294967296

-- The difference of two `int32`, as its 32 bits.
abbrev pub diff_bits : ℕ → ℕ → ℕ
diff_bits a b = (a + 4294967296 - b) % 4294967296

-- `G_compare_memb_ids`, as the 32 bits of the result.
unfoldable pub compare_memb_ids : MembershipId → MembershipId → ℕ
compare_memb_ids a b =
    if is_unknown_memb_id a
    then (if is_unknown_memb_id b then 0 else 1)
    else if is_unknown_memb_id b
    then 4294967295
    else if not (a.proc_id == b.proc_id)
    then diff_bits a.proc_id b.proc_id
    else if not (time_bits a.time == time_bits b.time)
    then diff_bits (time_bits a.time) (time_bits b.time)
    else 0

abbrev pub get_group : Env → List Group → Name → Option Group
get_group e gs name = e.groups_list.find gs name

-- `none` is an assertion that fails.
abbrev pub get_daemon : Env → Group → ℕ → Option (Option DaemonMembers)
get_daemon e g proc_id = e.daemons_list.find g.daemons proc_id

abbrev pub get_member : Env → DaemonMembers → Name → Option Name
get_member e d name = e.members_list.find d.members name

-- A daemon, or a group, that was changed through its pointer.
abbrev pub write_daemon : DaemonMembers → List DaemonMembers → List DaemonMembers
write_daemon d ds = map (λ c. if c.proc_id == d.proc_id then d else c) ds

abbrev pub write_group : Group → List Group → List Group
write_group g gs = map (λ c. elim (name_dec c.name g.name) [ yes _ ↦ g | no _ ↦ c ]) gs

-- With what the search for the daemon found.
abbrev pub remove_found : Env → Group → DaemonMembers → Option DaemonMembers → Option Group
remove_found e g d none = none
remove_found e g d (some _) = some (record g {
  daemons = e.daemons_list.erase g.daemons d.proc_id;
  num_members = g.num_members - length d.members;
})

-- `G_remove_daemon`; `none` is the exit on a daemon that is not in the group, and an assertion that
-- fails.
unfoldable pub remove_daemon : Env → Group → DaemonMembers → Option Group
remove_daemon e g d = e.daemons_list.find g.daemons d.proc_id >>= remove_found e g d

-- The last entry, and those before it.
abbrev pub last_mbox : ℕ → List ℕ → ℕ
last_mbox m [] = m
last_mbox m (b ∷ bs) = last_mbox b bs

abbrev pub all_but_last : ℕ → List ℕ → List ℕ
all_but_last m [] = []
all_but_last m (b ∷ bs) = m ∷ all_but_last b bs

-- The entries behind the one that is overwritten with the last.
abbrev pub overwrite : List ℕ → List ℕ
overwrite [] = []
overwrite (c ∷ cs) = last_mbox c cs ∷ all_but_last c cs

abbrev pub keep_front : ℕ → Option (List ℕ) → Option (List ℕ)
keep_front b none = none
keep_front b (some r) = some (b ∷ r)

-- The first `m` is overwritten with the last entry, and one entry is taken off the end.
abbrev pub drop_mbox : ℕ → List ℕ → Option (List ℕ)
drop_mbox m [] = none
drop_mbox m (b ∷ bs) =
    let rest = drop_mbox m bs in if b == m then some (overwrite bs) else keep_front b rest

abbrev pub set_mboxes : Group → Option (List ℕ) → Option Group
set_mboxes g none = none
set_mboxes g (some r) = some (record g { mboxes = r })

-- `G_remove_mailbox`; `none` is the exit on a mailbox that is not in the group.
unfoldable pub remove_mailbox : Group → ℕ → Option Group
remove_mailbox g m = set_mboxes g (drop_mbox m g.mboxes)

-- Each daemon with another `memb_id`, set through its pointer.
abbrev pub relabel : (DaemonMembers → MembershipId) → List DaemonMembers → List DaemonMembers
relabel new ds = map {B = DaemonMembers} (λ (d : DaemonMembers). record d { memb_id = new d }) ds

-- `G_update_daemon_memb_ids`.
unfoldable pub update_daemon_memb_ids : Group → Group
update_daemon_memb_ids g = record g {
  daemons =
      relabel (λ d. if is_partitioned_daemon d then d.memb_id else g.grp_id.memb_id) g.daemons;
}
