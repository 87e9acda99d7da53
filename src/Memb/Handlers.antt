-- ===== src/Memb/Handlers.antt =====
-- daemon/membership.c: `Memb_handle_alive`, `Memb_handle_join`, `Memb_handle_refer` and
-- `Memb_handle_foreign`, with the bytes of a packet in the order of this machine. `none` is an
-- exit, or a use of a process that was not found.
pub mod Refer
use in5020_distribuerte_syst.Prelude.{
  ◌%◌, ℕ, Bool, true, not, ◌&&◌, ◌==◌, ltb, if◌then◌else◌, List, Option, none, some, set, ◌>>=◌,
  is_none, get_or,
}
use in5020_distribuerte_syst.Prot.Store.{has_bits, regular_type}
use in5020_distribuerte_syst.Conf.{
  Proc, Configuration, proc_by_id, id_in_conf, leader, seg_leader, num_segments,
}
use in5020_distribuerte_syst.Memb.Members.{MembersInfo, insert_member}
use in5020_distribuerte_syst.Memb.Reps.{
  RepInfo, RepsInfo, active, no_rep, seg_rep, ring_rep, smallest_rep,
}
use in5020_distribuerte_syst.Memb.State.{
  Daemon, Phase, op, seg, represented, gather, form, evs, Packet, Send, start, send, no_id,
  shift_to_seg_call, form_or_fail_call,
}
use in5020_distribuerte_syst.Memb.Shift.{
  shift_to_gather, shift_to_represented, scast_alive, lookup_new_members,
}
use in5020_distribuerte_syst.Memb.Loss.{token_loss, insert_quietly, add_reps}

abbrev pub contains_id : Configuration → ℕ → Bool
contains_id c id = not (is_none (id_in_conf c id))

abbrev pub remember : ℕ → Daemon → Daemon
remember id d = record d { f_members = (insert_member d.f_members id).1 }

-- The token is lost, and the sender becomes known.
unfoldable pub lose_to : ℕ → Daemon → Option Daemon
unfolding token_loss
lose_to sender d = do d' ← token_loss d; some (remember sender d')

-- The `switch` of `Memb_handle_alive`.
unfoldable pub alive_in : Phase → ℕ → Daemon → Option Daemon
unfolding lose_to start
alive_in op sender d = if contains_id d.membership sender then lose_to sender d else some d
alive_in seg sender d = some (remember sender d)
alive_in represented sender d = some (start shift_to_seg_call d.timeouts.rep d)
alive_in gather sender d =
    if not d.token_alive
    then some (remember sender d)
    else if contains_id d.membership sender
    then lose_to sender d
    else some d
alive_in form sender d = some d
alive_in evs sender d = if contains_id d.future_membership sender then lose_to sender d else some d

unfoldable pub handle_alive : ℕ → Daemon → Option Daemon
unfolding alive_in
handle_alive sender d = alive_in d.phase sender d

-- A join packet: its sender, and its members and representatives.
pub record Join : Type 0 where
  pub sender : ℕ
  pub members : MembersInfo
  pub reps : RepsInfo

abbrev pub first_rep : Join → RepInfo
first_rep j = get_or j.reps.reps 0 no_rep

abbrev pub refer_to : ℕ → ℕ → ℕ → Daemon → Daemon
refer_to receiver rep kind d = send (Send.ucast receiver (Packet.refer d.my.id rep kind)) d

-- The leader of a ring starts to gather for the sender.
unfoldable pub asked : Join → Daemon → Daemon
asked j d = record d {
  potential_reps = record d.potential_reps {
    num_reps = 1;
    reps = set d.potential_reps.reps 0 (first_rep j);
  };
  f_members = record d.f_members { num_members = 0; num_pending = 0 };
}

-- Another member names its leader, unless its segment's leader answers for it.
unfoldable pub answered : Join → ℕ → Daemon → Option Daemon
unfolding send
answered j lead d =
    let referred = some (refer_to j.sender lead ring_rep d) in
    let for_segment = seg_leader d.membership d.my.seg_index >>= λ id.
    (if id == d.my.id then referred else some d) in
    if (first_rep j).seg_index == d.my.seg_index then for_segment else referred

unfoldable pub other_ring : Join → Daemon → Option Daemon
unfolding asked answered shift_to_gather
other_ring j d = leader d.membership >>= λ lead.
    (if lead == d.my.id then some (shift_to_gather (asked j d)) else answered j lead d)

-- The part of `Memb_handle_join` under `case OP`.
unfoldable pub join_in_op : Join → Daemon → Option Daemon
unfolding token_loss other_ring
join_in_op j d =
    let lost = token_loss d in
    if contains_id d.membership j.sender
    then (if ltb 1 (num_segments d.cn) then lost else some d)
    else other_ring j d

-- Whether the sender represents the segment of the daemon.
abbrev pub is_my_rep : Join → Daemon → Proc → Bool
is_my_rep j d p = d.my.seg_index == p.seg_index && (first_rep j).kind == seg_rep

unfoldable pub join_in_gather : Join → Daemon → Option Daemon
unfolding start
join_in_gather j d = do
  f ← insert_quietly d.table d.f_reps (first_rep j)
  p ← add_reps d.table (active j.reps) d.potential_reps
  let gathered = record d { f_reps = f; potential_reps = p }
  least ← smallest_rep d.table f
  some (
      if least.0 == (first_rep j).proc_id
      then start form_or_fail_call d.timeouts.gather gathered
      else gathered)

-- A join in state SEG, from the process that was found.
unfoldable pub join_in_seg : Join → Proc → Daemon → Daemon
unfolding shift_to_represented scast_alive
join_in_seg j p d =
    if is_my_rep j d p
    then scast_alive 1 (shift_to_represented (record d { my_seg_rep = j.sender }))
    else d

unfoldable pub join_in_represented : Join → Proc → Daemon → Daemon
unfolding scast_alive start send
join_in_represented j p d =
    if is_my_rep j d p
    then scast_alive 1 (start shift_to_seg_call d.timeouts.rep (record d { my_seg_rep = j.sender }))
    else if d.my_seg_rep == no_id
    then d
    else refer_to j.sender d.my_seg_rep seg_rep d

abbrev pub from_known : List Proc → ℕ → (Proc → Daemon) → Option Daemon
from_known table id f = elim (proc_by_id table id) [ none ↦ none | some (k, p) ↦ some (f p) ]

-- The `switch` of `Memb_handle_join`.
unfoldable pub join_in : Phase → Join → Daemon → Option Daemon
unfolding join_in_op join_in_seg join_in_represented join_in_gather lose_to
join_in op j d = join_in_op j d
join_in seg j d = from_known d.table j.sender (λ p. join_in_seg j p d)
join_in represented j d = from_known d.table j.sender (λ p. join_in_represented j p d)
join_in gather j d = join_in_gather j d
join_in form j d = some d
join_in evs j d = if contains_id d.future_membership j.sender then lose_to j.sender d else some d

unfoldable pub handle_join : Join → Daemon → Option Daemon
unfolding join_in
handle_join j d = join_in d.phase j d

-- A refer packet names a representative and its type, of which an `int16` keeps 16 bits. An unknown
-- one is reported and dropped.
unfoldable pub refer_in : Phase → ℕ → ℕ → Daemon → Option Daemon
refer_in gather rep kind d = elim (proc_by_id d.table rep) [
  | none ↦ some d
  | some (k, p) ↦ do
    let named : RepInfo = record { proc_id = p.id; kind = kind % 65536; seg_index = p.seg_index }
    r ← insert_quietly d.table d.potential_reps named
    some (record d { potential_reps = r })
]
refer_in _ rep kind d = some d

unfoldable pub handle_refer : ℕ → ℕ → Daemon → Option Daemon
unfolding refer_in
handle_refer rep kind d = refer_in d.phase rep kind d

-- The leader of a segment passes one message of another ring on to the leader of its own.
unfoldable pub pass_on : ℕ → ℕ → Daemon → Option Daemon
unfolding send
pass_on lead sender d =
    let message = Send.ucast lead (Packet.foreign sender) in
    let passed = send message (send message (record d { foreign_found = true })) in
    elim (seg_leader d.membership d.my.seg_index) [
      | none ↦ none
      | some id ↦ some (if id == d.my.id && not d.foreign_found then passed else d)
    ]

-- A regular message of another ring.
unfoldable pub foreign_in : Phase → ℕ → Daemon → Option Daemon
unfolding lookup_new_members pass_on
foreign_in op sender d = elim (proc_by_id d.table sender) [
  | none ↦ some d
  | some (k, p) ↦ do
    lead ← leader d.membership
    (if lead == d.my.id then some (lookup_new_members d) else pass_on lead sender d)
]
foreign_in _ sender d = some d

unfoldable pub handle_foreign : ℕ → Daemon → Option Daemon
unfolding foreign_in
handle_foreign sender d = foreign_in d.phase sender d

-- What the handlers read of a packet: `type`, `proc_id` and `memb_id` of its header, and the two
-- lists of a join.
pub record Incoming : Type 0 where
  pub kind : ℕ
  pub sender : ℕ
  pub memb_proc_id : ℕ
  pub memb_time : ℕ
  pub members : MembersInfo
  pub reps : RepsInfo

-- The masks of daemon/net_types.h.
abbrev pub alive_type : ℕ
alive_type = 0x100

abbrev pub join_type : ℕ
join_type = 0x200

abbrev pub refer_type : ℕ
refer_type = 0x400

abbrev pub join_of : Incoming → Join
join_of m = record { sender = m.sender; members = m.members; reps = m.reps }

-- `Memb_handle_message`. A packet of another type ends the program.
unfoldable pub handle_message : Incoming → Daemon → Option Daemon
unfolding handle_alive handle_join handle_refer handle_foreign
handle_message m d =
    if has_bits m.kind alive_type
    then handle_alive m.sender d
    else if has_bits m.kind join_type
    then handle_join (join_of m) d
    else if has_bits m.kind refer_type
    then handle_refer m.memb_proc_id m.memb_time d
    else if has_bits m.kind regular_type
    then handle_foreign m.sender d
    else none
