-- ===== src/Groups/Exchange.antt =====
-- daemon/groups.c: the groups messages that daemons exchange after a membership that is not only
-- smaller, and what they tell.
pub mod Synced
use in5020_distribuerte_syst.Prelude.{
  ℕ, zero, suc, ◌+◌, ◌-◌, ◌*◌, Bool, true, false, not, ◌==◌, ltb, if◌then◌else◌, List, [], ◌∷◌,
  ◌++◌, Option, none, some, ◌>>=◌, length, is_none,
}
use in5020_distribuerte_syst.Conf.{Configuration, id_in_conf, proc_by_id}
use in5020_distribuerte_syst.Prot.Store.{MembershipId}
use in5020_distribuerte_syst.Prot.Token.{memb_is_equal}
use in5020_distribuerte_syst.Groups.{Name, Group, DaemonMembers, Env, get_group, write_group}
use in5020_distribuerte_syst.Groups.State.{State, GroupInfo, GroupsBuf, GroupsMess}

-- What a loop of G_build_groups_buf took, and where its iterators and `num_bytes` stand then.
pub record Built : Type 0 where
  pub infos : List GroupInfo
  pub rest_daemons : List DaemonMembers
  pub rest_groups : List Group
  pub bytes : ℕ

pub record Packed : Type 0 where
  pub daemons : List DaemonMembers
  pub rest : List DaemonMembers
  pub bytes : ℕ

abbrev pub daemon_bytes : DaemonMembers → ℕ
daemon_bytes d = 14 + length d.members * 32

-- The inner loop, over the daemons of a group: each goes under the membership id of the group.
abbrev pub pack_daemons : Env → MembershipId → ℕ → List DaemonMembers → Packed
pack_daemons e memb_id bytes [] = record { daemons = []; rest = []; bytes = bytes }
pack_daemons e memb_id bytes (d ∷ ds) =
    let r = pack_daemons e memb_id (bytes + daemon_bytes d) ds in
    if ltb (100000 - bytes) (daemon_bytes d + e.header_size)
    then record { daemons = []; rest = d ∷ ds; bytes = bytes }
    else record r { daemons = record d { memb_id = memb_id } ∷ r.daemons }

-- The daemons of the next group.
abbrev pub first_daemons : List Group → List DaemonMembers
first_daemons [] = []
first_daemons (g ∷ gs) = g.daemons

abbrev pub info_of : Group → List DaemonMembers → GroupInfo
info_of g ds = record { name = g.name; grp_id = g.grp_id; changed = g.changed; daemons = ds }

-- The loop of G_build_groups_buf.
abbrev pub pack_groups : Env → ℕ → List DaemonMembers → List Group → Built
pack_groups e bytes ds [] = record {
  infos = [];
  rest_daemons = ds;
  rest_groups = [];
  bytes = bytes;
}
pack_groups e bytes ds (g ∷ gs) =
    let p = pack_daemons e g.grp_id.memb_id (bytes + 48) ds in
    let r = pack_groups e p.bytes (first_daemons gs) gs in
    if ltb (100000 - bytes) (48 + e.header_size)
    then record { infos = []; rest_daemons = ds; rest_groups = g ∷ gs; bytes = bytes }
    else elim p.rest [
      | [] ↦ record r { infos = info_of g p.daemons ∷ r.infos }
      | _ ∷ _ ↦ record {
        infos = info_of g p.daemons ∷ [];
        rest_daemons = p.rest;
        rest_groups = g ∷ gs;
        bytes = p.bytes;
      }
    ]

-- `G_build_groups_buf`, the first time and later.
abbrev pub first_built : Env → State → Built
first_built e s = pack_groups e (8 + 1 + 4 + length s.synced * 4) (first_daemons s.groups) s.groups

abbrev pub buf_of : State → Option (List ℕ) → Built → GroupsBuf
buf_of s synced b = record {
  memb_id = s.reg_memb_id;
  synced = synced;
  groups = b.infos;
  bytes = b.bytes;
}

-- The rounds of G_build_new_groups_bufs after the first; `none` where the rounds run out.
unfoldable pub build_later_bufs : Env → State → ℕ → Built → List GroupsBuf → Option (List GroupsBuf)
build_later_bufs e s zero b bufs = elim b.rest_groups [ [] ↦ some bufs | _ ∷ _ ↦ none ]
build_later_bufs e s (suc n) b bufs =
    let b' = pack_groups e (8 + 1) b.rest_daemons b.rest_groups in
    elim b.rest_groups [
      | [] ↦ some bufs
      | _ ∷ _ ↦ build_later_bufs e s n b' (buf_of s none b' ∷ bufs)
    ]

abbrev pub num_daemons : List Group → ℕ
num_daemons [] = 0
num_daemons (g ∷ gs) = length g.daemons + num_daemons gs

-- `G_build_new_groups_bufs`: each round takes a group or a daemon.
unfoldable pub build_new_groups_bufs : Env → State → Option State
unfolding build_later_bufs
build_new_groups_bufs e s =
    let b = first_built e s in
    build_later_bufs e s (length s.groups + num_daemons s.groups) b
      (buf_of s (some s.synced) b ∷ s.groups_bufs)
    >>= λ bufs. some (record s { groups_bufs = bufs })

abbrev pub stamp_all : MembershipId → List GroupsBuf → List GroupsBuf
stamp_all id [] = []
stamp_all id (b ∷ bs) = record b { memb_id = id } ∷ stamp_all id bs

abbrev pub stamp_groups_bufs : State → State
stamp_groups_bufs s = record s { groups_bufs = stamp_all s.reg_memb_id s.groups_bufs }

abbrev pub discard_groups_bufs : State → State
discard_groups_bufs s = record s { groups_bufs = [] }

-- A message of a buffer, with its header: the last one is AGREED.
abbrev pub mess_of : Env → State → GroupsBuf → Bool → GroupsMess
mess_of e s b agreed = record {
  buf = b;
  sender = e.my.name;
  synced_size = length s.synced;
  agreed = agreed;
}

abbrev pub messages_of : Env → State → List GroupsBuf → List GroupsMess
messages_of e s [] = []
messages_of e s (b ∷ []) = mess_of e s b true ∷ []
messages_of e s (b ∷ c ∷ bs) = mess_of e s b false ∷ messages_of e s (c ∷ bs)

unfoldable pub send_groups_messages : Env → State → State
send_groups_messages e s = record s { sent = s.sent ++ messages_of e s s.groups_bufs }

abbrev pub is_synced_set_leader : State → ℕ → Bool
is_synced_set_leader s id = elim s.synced [ [] ↦ false | p ∷ ps ↦ p == id ]

abbrev pub put_members : Env → List Name → List Name → List Name
put_members e [] ms = ms
put_members e (n ∷ ns) ms = put_members e ns (e.members_list.put ms n)

-- A daemon of a groups message: a new one of the group.
abbrev pub take_daemon : Env → DaemonMembers → Group → Option Group
take_daemon e d g =
    e.daemons_list.put g.daemons (record d { members = put_members e d.members [] }) >>= λ ds.
    some (record g {
      daemons = ds;
      changed = if memb_is_equal d.memb_id g.grp_id.memb_id then g.changed else true;
      num_members = g.num_members + length d.members;
    })

abbrev pub take_daemons : Env → List DaemonMembers → Group → Option Group
take_daemons e [] g = some g
take_daemons e (d ∷ ds) g = take_daemon e d g >>= take_daemons e ds

abbrev pub group_of_info : GroupInfo → Group
group_of_info i = record {
  name = i.name;
  grp_id = i.grp_id;
  changed = false;
  num_members = 0;
  daemons = [];
  mboxes = [];
}

-- What a groups message tells of one group; `none` is an assertion that fails.
unfoldable pub take_info : Env → GroupInfo → State → Option State
take_info e i s = elim (get_group e s.groups i.name) [
  | some g ↦
      take_daemons e i.daemons (record g { changed = if i.changed then true else g.changed })
      >>= λ g'. some (record s { groups = write_group g' s.groups })
  | none ↦ take_daemons e i.daemons (record (group_of_info i) { changed = i.changed }) >>= λ g'.
      some (record s {
        groups = write_group g' (e.groups_list.put s.groups (group_of_info i));
        num_groups = suc s.num_groups;
      })
]

abbrev pub take_infos : Env → List GroupInfo → State → Option State
take_infos e [] s = some s
take_infos e (i ∷ is) s = take_info e i s >>= take_infos e is

-- `G_mess_to_groups`, with the synced set of the caller.
unfoldable pub mess_to_groups : Env → GroupsMess → State × List ℕ → Option (State × List ℕ)
unfolding take_info
mess_to_groups e m (s, sset) =
    take_infos e m.buf.groups s >>= λ s'. some (s', elim m.buf.synced [ none ↦ sset | some l ↦ l ])

-- The index in `Config_procs`.
abbrev pub conf_index : Env → ℕ → Option ℕ
conf_index e id = elim (proc_by_id e.table id) [ none ↦ none | some (i, _) ↦ some i ]

-- The loop of G_add_to_synced_set; `none` is an exit, on a process that is not in the configuration
-- or in both sets.
unfoldable pub merge_synced : Env → ℕ → List ℕ → List ℕ → Option (List ℕ)
merge_synced e zero ls rs = elim ls [ [] ↦ elim rs [ [] ↦ some [] | _ ∷ _ ↦ none ] | _ ∷ _ ↦ none ]
merge_synced e (suc n) [] [] = some []
merge_synced e (suc n) [] (r ∷ rs) =
    conf_index e r >>= λ _. merge_synced e n [] rs >>= λ t. some (r ∷ t)
merge_synced e (suc n) (l ∷ ls) [] =
    conf_index e l >>= λ _. merge_synced e n ls [] >>= λ t. some (l ∷ t)
merge_synced e (suc n) (l ∷ ls) (r ∷ rs) = conf_index e l >>= λ i. conf_index e r >>= λ j.
    if ltb i j
    then (merge_synced e n ls (r ∷ rs) >>= λ t. some (l ∷ t))
    else if ltb j i
    then (merge_synced e n (l ∷ ls) rs >>= λ t. some (r ∷ t))
    else none

-- `G_add_to_synced_set`: each round takes a process.
unfoldable pub add_to_synced_set : Env → List ℕ → State → Option State
unfolding merge_synced
add_to_synced_set e sset s = merge_synced e (length s.synced + length sset) s.synced sset >>= λ t.
    some (record s { synced = t })

abbrev pub keep_members : Configuration → List ℕ → List ℕ
keep_members memb [] = []
keep_members memb (p ∷ ps) =
    let rest = keep_members memb ps in if is_none (id_in_conf memb p) then rest else p ∷ rest

-- `G_update_synced_set` and `G_update_synced_set_status`, with the result.
unfoldable pub update_synced_set : List ℕ → Configuration → List ℕ × Bool
update_synced_set ps memb = (keep_members memb ps, not (length (keep_members memb ps) == length ps))
