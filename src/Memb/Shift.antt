-- ===== src/Memb/Shift.antt =====
-- daemon/membership.c: `Shift_to_seg`, `Shift_to_gather`, `Shift_to_represented`,
-- `Gather_or_represented`, `Scast_alive`, `Send_join` and `Memb_lookup_new_members`.
use in5020_distribuerte_syst.Prelude.{
  ℕ, ◌+◌, ◌*◌, Bool, true, false, ◌==◌, if◌then◌else◌, List, [], ◌∷◌, ◌++◌, Option, none, some, set,
  map, is_none,
}
use in5020_distribuerte_syst.Conf.{Proc, Segment, Configuration, id_in_conf, num_segments}
use in5020_distribuerte_syst.Memb.Members.{MembersInfo, smallest_member}
use in5020_distribuerte_syst.Memb.Reps.{RepInfo, RepsInfo, active, seg_rep, ring_rep}
use in5020_distribuerte_syst.Memb.State.{
  Daemon, Phase, op, seg, represented, gather, Packet, Send, start, cancel, send, zero_timeout,
  no_id, scast_alive_call, gather_or_represented_call, shift_to_seg_call, send_join_call,
  form_or_fail_call, lookup_call,
}

-- `State = s; GlobalStatus.state = s;`
unfoldable pub enter : Phase → Daemon → Daemon
enter s d = record d { phase = s; status_state = s }

-- One member, written over the first entry.
abbrev pub only_member : ℕ → MembersInfo → MembersInfo
only_member id m = record m { num_members = 1; members = set m.members 0 id }

-- One representative, written over the first entry.
abbrev pub only_rep : RepInfo → RepsInfo → RepsInfo
only_rep x r = record r { num_reps = 1; reps = set r.reps 0 x }

unfoldable pub shift_to_seg : Daemon → Daemon
unfolding enter start
shift_to_seg d =
    let entered = enter seg d in
    let alone = record entered {
      f_members = record (only_member d.my.id d.f_members) { num_pending = 0 };
    } in
    start gather_or_represented_call d.timeouts.seg (start scast_alive_call zero_timeout alone)

unfoldable pub shift_to_gather : Daemon → Daemon
unfolding enter start cancel
shift_to_gather d =
    let entered = enter gather d in
    let own : RepInfo = record {
      proc_id = d.my.id;
      kind = if d.token_alive then ring_rep else seg_rep;
      seg_index = d.my.seg_index;
    } in
    let listed = record entered { f_reps = only_rep own d.f_reps } in
    start form_or_fail_call d.timeouts.gather
      (start send_join_call zero_timeout (cancel lookup_call (cancel scast_alive_call listed)))

unfoldable pub shift_to_represented : Daemon → Daemon
unfolding enter start cancel
shift_to_represented d =
    start shift_to_seg_call d.timeouts.rep
      (cancel gather_or_represented_call (cancel scast_alive_call (enter represented d)))

-- `none` is the exit of `Smallest_member`.
unfoldable pub gather_or_represented : Daemon → Option Daemon
unfolding shift_to_gather shift_to_represented
gather_or_represented d =
    let unset = record d { my_seg_rep = no_id } in
    elim (smallest_member d.table d.f_members) [
      | none ↦ none
      | some (id, index) ↦
          some (if id == d.my.id then shift_to_gather unset else shift_to_represented unset)
    ]

-- 2 * sizeof(int16) and the entries.
abbrev pub members_len : MembersInfo → ℕ
members_len m = 4 + m.num_members * 4

abbrev pub reps_len : RepsInfo → ℕ
reps_len r = 4 + r.num_reps * 8

unfoldable pub scast_alive : ℕ → Daemon → Daemon
unfolding start send
scast_alive code d =
    let told =
      send (Send.scast d.my.seg_index (Packet.alive d.my.id (members_len d.f_members) d.f_members))
        d in
    if code == 0 then start scast_alive_call d.timeouts.alive told else told

abbrev join_packet : Daemon → Packet
join_packet d =
    Packet.join d.my.id (members_len d.f_members + reps_len d.f_reps) d.f_members d.f_reps

-- The same packet to each of the representatives.
abbrev to_reps : Packet → List RepInfo → List Send
to_reps p = map λ r. Send.ucast r.proc_id p

unfoldable pub send_join : Daemon → Daemon
unfolding start send
send_join d =
    let packet = join_packet d in
    let near = if d.token_alive then d.sent else d.sent ++ Send.scast d.my.seg_index packet ∷ [] in
    let told = record d { sent = near ++ to_reps packet (active d.potential_reps) } in
    start send_join_call d.timeouts.join told

abbrev pub is_empty : List ℕ → Bool
is_empty [] = true
is_empty (x ∷ xs) = false

-- The unicasts of `Memb_lookup_new_members`: to each process that the membership does not have.
pub missing_in : Configuration → List Proc → List ℕ
missing_in reg [] = []
missing_in reg (p ∷ ps) =
    if is_none (id_in_conf reg p.id) then p.id ∷ missing_in reg ps else missing_in reg ps

pub missing : Configuration → List Segment → List ℕ
unfolding missing_in
missing reg [] = []
missing reg (s ∷ ss) = missing_in reg s.procs ++ missing reg ss

-- The leader of a ring speaks for itself alone.
unfoldable pub asking : Daemon → Daemon
asking d = record d {
  potential_reps = record d.potential_reps { num_reps = 0 };
  f_reps =
      only_rep (record { proc_id = d.my.id; kind = ring_rep; seg_index = d.my.seg_index }) d.f_reps;
  f_members = record d.f_members { num_members = 0; num_pending = 0 };
}

-- In a configuration of one segment the join is broadcast in it.
unfoldable pub broadcast : Daemon → Daemon
unfolding asking send
broadcast d = send (Send.scast d.my.seg_index (join_packet (asking d))) (asking d)

-- Otherwise it goes to each process that the ring lacks.
unfoldable pub probing : Daemon → Daemon
unfolding asking missing
probing d = record (asking d) {
  sent =
      d.sent
      ++ map (λ i. Send.ucast i (join_packet (asking d))) (missing d.reg_membership d.cn.segments);
}

unfoldable pub lookup_in_op : Daemon → Daemon
unfolding shift_to_gather broadcast probing
lookup_in_op d =
    if num_segments d.cn == 1
    then shift_to_gather (broadcast d)
    else if is_empty (missing d.reg_membership d.cn.segments)
    then asking d
    else shift_to_gather (probing d)

unfoldable pub lookup_in : Phase → Daemon → Daemon
unfolding lookup_in_op
lookup_in op d = lookup_in_op d
lookup_in _ d = d

unfoldable pub lookup_new_members : Daemon → Daemon
unfolding lookup_in
lookup_new_members d = lookup_in d.phase d
