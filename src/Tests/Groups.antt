-- ===== src/Tests/Groups.antt =====
-- Runs of the groups of a daemon, over lists in place of the skip lists.
use mathlib.Core.List.{Permᴰ}
use mathlib.Core.List.Perm
use mathlib.Core.List.Permᴰ as PermD
use mathlib.Core.Option.{some-injective}
use in5020_distribuerte_syst.Prelude.{
  ◌≡◌, ◌↔◌, refl, true, false, [], ◌∷◌, ◌++◌, none, some, pos, arith, inl, ◌>>=◌, length, map, All,
}
use in5020_distribuerte_syst.Conf.{Proc, Configuration, num_procs, proc_by_id}
use in5020_distribuerte_syst.Prot.Store.{MembershipId}
use in5020_distribuerte_syst.Tests.Conf.{machine, segment}
use in5020_distribuerte_syst.Tests.Skiplists.{listed}
use in5020_distribuerte_syst.Tests.DaemonsLists.{listed_daemons}
use in5020_distribuerte_syst.Groups.{
  Name, Group, DaemonMembers, Env, Phase, gop, gtrans, name_dec, IsListed, compare_proc_ids_by_conf,
  get_daemon,
}
use in5020_distribuerte_syst.Groups.Notices.{
  send_lightweight_memb, VsSets, all_members, build_memb_vs_buf,
}
use in5020_distribuerte_syst.Groups.Notices.Listed.{flatten}
use in5020_distribuerte_syst.Groups.Notices.Sets.{IsJoiner, build_memb_vs_buf-lists}
use in5020_distribuerte_syst.Groups.State.{State}
use in5020_distribuerte_syst.Groups.Names.{private_to_names}
use in5020_distribuerte_syst.Groups.Handlers.{handle_join, join_group}
use in5020_distribuerte_syst.Groups.Departures.{handle_leave, handle_kill, leave_group}
use in5020_distribuerte_syst.Groups.Names.Private.{IsPart, private_to_names_iff}
use in5020_distribuerte_syst.Groups.Exchange.{add_to_synced_set}
use in5020_distribuerte_syst.Groups.Exchange.Synced.{add_to_synced_set-Returns}
use in5020_distribuerte_syst.Groups.Memberships.{handle_trans_memb, handle_reg_memb}
use in5020_distribuerte_syst.Groups.Whole.{IsWhole}
use in5020_distribuerte_syst.Groups.Whole.Join.{HasSession}
use in5020_distribuerte_syst.Groups.Whole.Daemon.{IsSound, FindsAll, handle_join-IsSound}
use in5020_distribuerte_syst.Groups.Whole.Leave.{handle_leave-IsSound}
use in5020_distribuerte_syst.Groups.Whole.Kill.{handle_kill-IsSound}
use in5020_distribuerte_syst.Groups.Whole.Cut.{IsMarkedBy, handle_trans_memb-IsSound}
use in5020_distribuerte_syst.Groups.Whole.Restart.{handle_reg_memb-IsSound}

-- Two daemons, b and c; this is b.
abbrev here_b : Proc
here_b = record (machine 11 0 0) { name = 98 ∷ [] }

abbrev there_c : Proc
there_c = record (machine 12 0 1) { name = 99 ∷ [] }

abbrev env : Env
env = record {
  my = here_b;
  table = here_b ∷ there_c ∷ [];
  mbox_of = λ n. elim n [ [] ↦ none | c ∷ _ ↦ some c ];
  is_memb = λ _. true;
  unset = ([], []);
  unset_synced = [];
  header_size = 48;
  groups_list = listed (λ g. g.name) name_dec;
  daemons_list = listed_daemons (here_b ∷ there_c ∷ []);
  members_list = listed (λ n. n) name_dec;
  vs_order = some;
  vs_order-perm = λ ds _ _. (ds, refl, PermD.refl ds);
}

-- The private groups #a#b, #d#c and #z#b, and a group g.
abbrev anna : Name
anna = 35 ∷ 97 ∷ 35 ∷ 98 ∷ []

abbrev dora : Name
dora = 35 ∷ 100 ∷ 35 ∷ 99 ∷ []

abbrev zoe : Name
zoe = 35 ∷ 122 ∷ 35 ∷ 98 ∷ []

abbrev first_id : MembershipId
first_id = record { proc_id = 11; time = pos 5 }

abbrev second_id : MembershipId
second_id = record { proc_id = 11; time = pos 6 }

abbrev members_b : DaemonMembers
members_b = record { proc_id = 11; memb_id = first_id; members = anna ∷ [] }

abbrev members_c : DaemonMembers
members_c = record { proc_id = 12; memb_id = first_id; members = dora ∷ [] }

abbrev group_g : Group
group_g = record {
  name = 103 ∷ [];
  grp_id = record { memb_id = first_id; index = 2 };
  changed = false;
  num_members = 2;
  daemons = members_b ∷ members_c ∷ [];
  mboxes = 97 ∷ [];
}

abbrev both : Configuration
both = record { hash_code = 7; segments = segment (here_b ∷ there_c ∷ []) ∷ [] }

abbrev alone : Configuration
alone = record { hash_code = 7; segments = segment (here_b ∷ []) ∷ [] }

abbrev state_in : Phase → State
state_in phase = record {
  phase = phase;
  groups = group_g ∷ [];
  num_groups = 1;
  trans_memb = both;
  trans_memb_id = first_id;
  reg_memb = both;
  reg_memb_id = first_id;
  synced = 11 ∷ [];
  own_complete = false;
  gathered = [];
  num_mess_gathered = 0;
  num_daemons_gathered = 0;
  normal_down_queue = true;
  session_threshold = 0;
  groups_bufs = [];
  bufs_fresh = false;
  sent = [];
  told = [];
}

env-FindsAll : FindsAll env.table
unfolding IsListed proc_by_id
env-FindsAll = ((0, here_b, refl, refl), ((1, there_c, refl, refl), tt))

-- A daemon that the configuration does not find is compared with none.
unknown_daemon : get_daemon env group_g 99 ≡ none
unfolding compare_proc_ids_by_conf proc_by_id
unknown_daemon = refl

group_g-IsWhole : IsWhole env group_g
unfolding private_to_names
group_g-IsWhole = record {
  apart = ((λ e. ground arith, tt), (tt, tt));
  full = ((omega arith, (tt, tt)), ((omega arith, (tt, tt)), tt));
  count = refl;
  boxes = Perm.refl (some 97 ∷ []);
  marked = (λ p. ground arith, (λ p. ground arith, tt));
  listed = env-FindsAll;
}

state_in-IsSound : (phase : Phase) → IsSound env (state_in phase)
state_in-IsSound phase = record {
  names = (tt, tt);
  kept = (
    record { whole = group_g-IsWhole; some_left = omega arith; known = refl; calm = λ _. refl },
    tt,
  );
  counted = refl;
  reg_known = refl;
  trans_known = refl;
}

zoe-HasSession : HasSession env 11 zoe
unfolding private_to_names
zoe-HasSession = λ _. (122, refl)

-- Anna is told that Zoe joined, with the three members.
joined_zoe : (handle_join env (state_in gop) zoe (103 ∷ []) >>= λ s. some (length s.told)) ≡ some 2
unfolding handle_join name_dec private_to_names join_group send_lightweight_memb
    compare_proc_ids_by_conf proc_by_id
joined_zoe = refl

left_anna :
    (handle_leave env (state_in gop) anna (103 ∷ []) >>= λ s.
    some (map (λ g. g.num_members) s.groups))
    ≡ some (1 ∷ [])
unfolding handle_leave name_dec private_to_names leave_group compare_proc_ids_by_conf proc_by_id
left_anna = refl

killed_dora :
    (handle_kill env (state_in gop) dora >>= λ s. some (map (λ g. g.num_members) s.groups))
    ≡ some (1 ∷ [])
unfolding handle_kill name_dec private_to_names compare_proc_ids_by_conf proc_by_id
killed_dora = refl

handle_join-IsSound_example :
    (s' : State) × (handle_join env (state_in gop) zoe (103 ∷ []) ≡ some s') × IsSound env s'
unfolding private_to_names name_dec
handle_join-IsSound_example =
    handle_join-IsSound env (state_in gop) zoe (103 ∷ []) here_b (inl refl) (state_in-IsSound gop)
      env-FindsAll refl zoe-HasSession

handle_leave-IsSound_example :
    (s' : State) × (handle_leave env (state_in gop) anna (103 ∷ []) ≡ some s') × IsSound env s'
handle_leave-IsSound_example =
    handle_leave-IsSound env (state_in gop) anna (103 ∷ []) (inl refl) (state_in-IsSound gop)
      env-FindsAll

handle_kill-IsSound_example :
    (s' : State) × (handle_kill env (state_in gop) dora ≡ some s') × IsSound env s'
handle_kill-IsSound_example =
    handle_kill-IsSound env (state_in gop) dora (inl refl) (state_in-IsSound gop) env-FindsAll

handle_trans_memb-IsSound_example :
    (s' : State) × (handle_trans_memb env (state_in gop) alone second_id ≡ some s')
    × (s'.phase ≡ gtrans)
    × IsSound env s'
    × All (IsMarkedBy alone) s'.groups
handle_trans_memb-IsSound_example =
    handle_trans_memb-IsSound env (state_in gop) alone second_id refl refl (state_in-IsSound gop)

handle_reg_memb-IsSound_example :
    (s' : State) × (handle_reg_memb env (state_in gtrans) both second_id ≡ some s')
    × (s'.phase ≡ gop)
    × IsSound env s'
unfolding num_procs
handle_reg_memb-IsSound_example =
    handle_reg_memb-IsSound env (state_in gtrans) both second_id refl refl refl
      (state_in-IsSound gtrans) ((λ _. refl, (λ _. refl, tt)), tt)

build_memb_vs_buf-lists_example :
    (v : VsSets) × (build_memb_vs_buf env group_g (some anna) ≡ some v)
    × Permᴰ (flatten v.sets) (all_members group_g.daemons)
unfolding IsJoiner
build_memb_vs_buf-lists_example =
    build_memb_vs_buf-lists env group_g (some anna) env-FindsAll group_g-IsWhole.apart
      (λ a. a.0 refl)

private_to_names_iff_example :
    (private_to_names anna ≡ some (97 ∷ [], 98 ∷ []))
    ↔ ((anna ≡ 35 ∷ ((97 ∷ []) ++ 35 ∷ 98 ∷ [])) × IsPart 10 (97 ∷ []) × IsPart 19 (98 ∷ []))
private_to_names_iff_example = private_to_names_iff anna (97 ∷ []) (98 ∷ [])

add_to_synced_set-Returns_example :
    (s' : State) × (add_to_synced_set env (12 ∷ []) (state_in gop) ≡ some s')
    × Permᴰ ((11 ∷ []) ++ 12 ∷ []) s'.synced
unfolding proc_by_id
add_to_synced_set-Returns_example =
    add_to_synced_set-Returns env (state_in gop) (12 ∷ []) ((0, refl), tt) ((1, refl), tt)
      ((λ e. ground (arith, some-injective 0 1 e), tt), tt)
