-- ===== src/Tests/Memb.antt =====
-- daemon/membership.c on the network of `Tests/Conf.antt`.
use mathlib.Core.List.{Perm}
use in5020_distribuerte_syst.Prelude.{
  ℕ, zero, suc, ◌≡◌, ◌≢◌, ◌≤◌, ◌<◌, refl, Bool, true, false, ◌==◌, if◌then◌else◌, List, [], ◌∷◌,
  some, none, pos, negsuc, replicate, length, arith,
}
use in5020_distribuerte_syst.Events.Time.{SpTime}
use in5020_distribuerte_syst.Events.Timers.Map.{pending}
use in5020_distribuerte_syst.Conf.{proc_by_id}
use in5020_distribuerte_syst.Flow.{fc_init}
use in5020_distribuerte_syst.Memb.Members as Members
use in5020_distribuerte_syst.Memb.Members.{
  MembersInfo, insert_member, smallest_member, sort_members, max_procs_ring,
}
use in5020_distribuerte_syst.Memb.Members.Insert as Insert
use in5020_distribuerte_syst.Memb.Members.Insert.{
  contains, add_member, IsDistinct, insert_member_refines, insert_member-IsDistinct,
}
use in5020_distribuerte_syst.Memb.Members.Smallest.{AllNamed}
use in5020_distribuerte_syst.Memb.Members.Sort.{InOrder, sort_members-sorts}
use in5020_distribuerte_syst.Memb.Reps.{RepInfo, RepsInfo, insert_rep}
use in5020_distribuerte_syst.Memb.Reps.Segments as Segments
use in5020_distribuerte_syst.Memb.Reps.Segments.{IsOwn, insert_rep-IsValid}
use in5020_distribuerte_syst.Memb.State.{Daemon, Phase, token_loss_call}
use in5020_distribuerte_syst.Memb.State.Timers.{Only}
use in5020_distribuerte_syst.Prot.Store.{Store, Header, pack_entry}
use in5020_distribuerte_syst.Memb.Loss.{backoff_membership}
use in5020_distribuerte_syst.Memb.Loss.Backoff.{backoff_membership_lem}
use in5020_distribuerte_syst.Memb.Handlers.{Incoming, handle_message}
use in5020_distribuerte_syst.Memb.Discipline.{InPhase, Keeps, allowed}
use in5020_distribuerte_syst.Memb.Discipline.Packets.{handle_message-Keeps}
use in5020_distribuerte_syst.Tests.Conf.{table, network, machine}

abbrev members_of : List ℕ → MembersInfo
members_of ids = record {
  num_members = length ids;
  num_pending = 0;
  members = fill ids (replicate 128 0);
}
  where
    fill : List ℕ → List ℕ → List ℕ
    fill [] zs = zs
    fill (x ∷ xs) [] = []
    fill (x ∷ xs) (z ∷ zs) = x ∷ fill xs zs

-- Ids out of the order of the configuration.
abbrev pub three : MembersInfo
three = members_of (21 ∷ 11 ∷ 12 ∷ [])

three-IsValid : Insert.IsValid three
three-IsValid = omega arith

insert_again : (insert_member three 11).0 ≡ false
unfolding insert_member
insert_again = refl

smallest_of_three : smallest_member table three ≡ some (11, 1)
unfolding smallest_member proc_by_id
smallest_of_three = refl

three_named : AllNamed table three.members three.num_members
unfolding proc_by_id
three_named zero h e = cc e
three_named (suc zero) h e = cc e
three_named (suc (suc zero)) h e = cc e
three_named (suc (suc (suc j))) h e = absurd (omega arith)

sort_members-sorts_example :
    (m' : MembersInfo) × (sort_members table three ≡ some m')
    × (m'.num_members ≡ 3)
    × (m'.num_pending ≡ 0)
    × Perm (Members.active three) (Members.active m')
    × InOrder table (Members.active m')
sort_members-sorts_example = sort_members-sorts table three (omega arith) three_named

-- A potential representative of the second segment.
abbrev pub potential : RepsInfo
potential = record {
  num_reps = 1;
  rep_index = 0;
  reps =
      record { proc_id = 21; kind = 0; seg_index = 1 }
      ∷ replicate 24 (record { proc_id = 0; kind = 0; seg_index = 0 });
}

pub potential-IsValid : Segments.IsValid potential
potential-IsValid = record {
  room = refl;
  fits = omega arith;
  apart = (tt, tt);
  kinds = (omega arith, tt);
}

-- The leader of the first segment, with its ring.
abbrev pub leads : RepInfo
leads = record { proc_id = 11; kind = 2; seg_index = 0 }

pub leads-IsOwn : IsOwn table leads
unfolding proc_by_id
leads-IsOwn = (0, machine 11 0 0, refl, refl, refl)

insert_rep-IsValid_example :
    (b : Bool) × (r' : RepsInfo) × (insert_rep table potential leads ≡ some (b, r'))
    × Segments.IsValid r'
insert_rep-IsValid_example =
    insert_rep-IsValid table potential leads leads-IsOwn (omega arith) potential-IsValid

abbrev pub seconds : ℕ → SpTime
seconds n = record { sec = pos n; usec = pos 0 }

abbrev pub no_reps : RepsInfo
no_reps = record {
  num_reps = 0;
  rep_index = 0;
  reps = replicate 25 (record { proc_id = 0; kind = 0; seg_index = 0 });
}

abbrev pub first_header : Header
first_header = record {
  kind = 8;
  proc_id = 11;
  memb_id = record { proc_id = 11; time = pos 100 };
  seq = 1;
  fifo_seq = 1;
  packet_index = negsuc 0;
  data_len = 10;
}

-- Packet 3 is a dummy, packet 5 has come.
abbrev pub five_packets : Store
five_packets = record {
  exist = λ k. if k == 3 then 3 else if k == 5 then 1 else 0;
  head = λ k. record first_header { seq = k };
  body = λ k. k;
  proc_index = λ k. 0;
  up_queue = λ k. none;
  down_queue = λ k. record { links = []; cur_element = 0 };
  down_type = 0;
  protocol_threshold = 0;
  net = record {
    queued = [];
    queued_bytes = 0;
    scatter_size = 64;
    knows = λ _. true;
    accepts = λ k. true;
    flushes = 0;
    wire = [];
  };
  aru = 3;
  my_aru = 3;
  highest_seq = 5;
  highest_fifo_seq = 0;
  last_discarded = 2;
  last_delivered = 2;
  last_seq = 0;
  set_aru = negsuc 0;
  token_rounds = 4;
  token_counter = 0;
  last_num_retrans = 0;
  last_num_sent = 0;
  last_token = record {
    kind = 0;
    seq = 5;
    proc_id = 11;
    aru = 3;
    aru_last_id = 11;
    flow_control = pos 0;
    rtr_len = 0;
  };
  delivered = [];
  messages = [];
}

-- A member of a ring of the three machines, before packet 3, which is a dummy.
abbrev pub ring_member : Daemon
ring_member = record {
  my = machine 12 0 1;
  table = table;
  cn = network;
  phase = Phase.op;
  token_alive = true;
  my_seg_rep = 0;
  foreign_found = false;
  membership = network;
  membership_id = record { proc_id = 11; time = pos 100 };
  future_membership = network;
  future_membership_id = record { proc_id = 11; time = pos 100 };
  f_members = three;
  f_reps = no_reps;
  potential_reps = no_reps;
  commit_set = three;
  future_commit_set = three;
  reg_membership = network;
  transitional = false;
  trans_membership = network;
  trans_memb_id = record { proc_id = 11; time = pos 100 };
  f_trans_memb_time = pos 100;
  last_time_used = pos 101;
  commit_membership = network;
  wide_network = false;
  windows = fc_init;
  dangerous_monitor = false;
  status_state = Phase.op;
  membership_changes = 1;
  store = five_packets;
  timers = record { t = seconds 9; call = token_loss_call } ∷ [];
  timeouts = record {
    token = seconds 5;
    hurry = seconds 2;
    alive = seconds 1;
    join = seconds 1;
    rep = seconds 2;
    seg = seconds 2;
    gather = seconds 5;
    form = seconds 5;
    lookup = seconds 60;
  };
  clock = λ k. seconds k;
  readings = 0;
  sent = [];
}

ring_member-Only : Only (allowed Phase.op true) ring_member.timers
unfolding pending
ring_member-Only = record { unique = (tt, tt); none_else = λ c h. ground arith }

pub ring_member-InPhase : InPhase ring_member
ring_member-InPhase = record { mirrored = refl; token = refl; fits = ring_member-Only }

-- An alive message of a member of the ring.
abbrev alive_message : Incoming
alive_message = record {
  kind = 0x100;
  sender = 21;
  memb_proc_id = 0;
  memb_time = 0;
  members = three;
  reps = no_reps;
}

handle_message-Keeps_example : Keeps (handle_message alive_message ring_member)
handle_message-Keeps_example = handle_message-Keeps alive_message ring_member ring_member-InPhase

-- `My_aru` goes to 5 though packet 4 is missing.
backoff_skips : (backoff_membership ring_member).my_aru ≡ 5
unfolding backoff_membership
backoff_skips = refl

backoff_membership_lem_example :
    let d' = backoff_membership ring_member in
    (d'.aru ≡ 2)
    × ((j : ℕ) → 2 < j → j ≤ 5 → d'.exist (pack_entry j) ≢ 3)
    × ((k : ℕ) → ring_member.exist k ≢ 3 → d'.exist k ≡ ring_member.exist k)
    × (d'.my_aru ≡ (if d'.exist (pack_entry 5) == 0 then 2 else 5))
backoff_membership_lem_example = backoff_membership_lem ring_member (omega arith)
