-- ===== src/Tests/Prot.antt =====
-- daemon/protocol.c and daemon/network.c on small inputs.
use in5020_distribuerte_syst.Prelude.{
  ◌%◌, ◌↔◌, ℕ, zero, suc, ◌<◌, ◌≤◌, ◌≡◌, ◌⊎◌, refl, sym, ap, Bool, true, false, ◌&&◌, ◌==◌, ltb,
  if◌then◌else◌, List, [], ◌∷◌, map, none, some, pos, negsuc, arith, Bool-cases, inl, inr,
}
use in5020_distribuerte_syst.Conf.{proc_by_id, leader}
use in5020_distribuerte_syst.Memb.State.{Daemon}
use in5020_distribuerte_syst.Memb.Regular.{pending_ids, transitional_memb}
use in5020_distribuerte_syst.Memb.Regular.Transitional.{
  among_segment, IsKnown, AllKnown, transitional_memb-among,
}
use in5020_distribuerte_syst.Memb.Members.{active}
use in5020_distribuerte_syst.Prot.Store.{
  Store, Header, TokenHeader, pack_entry, is_single, is_end, index_of,
}
use in5020_distribuerte_syst.Prot.Deliver.{deliver_agreed, discard_old}
use in5020_distribuerte_syst.Prot.Deliver.Stream.{Ring, IsFramed, position, ordered, line}
use in5020_distribuerte_syst.Prot.Deliver.Order.{IsSound, IsAgreed, deliver_agreed-IsAgreed}
use in5020_distribuerte_syst.Prot.Deliver.Discard.{latest, discard_old-IsSound}
use in5020_distribuerte_syst.Prot.Receive.Agreement.{GoesOn, insert_packets_agree}
use in5020_distribuerte_syst.Prot.Receive.{insert_packets}
use in5020_distribuerte_syst.Prot.Receive.Insert.{AllOf, insert_packets-IsSound}
use in5020_distribuerte_syst.Prot.Token.{get_arq}
use in5020_distribuerte_syst.Prot.Token.{Answers, next_aru}
use in5020_distribuerte_syst.Prot.Token.Aru.{next_aru_lem}
use in5020_distribuerte_syst.Prot.Handle.{judge, swallow, take_it}
use in5020_distribuerte_syst.Prot.Handle.Token.{next_kind}
use in5020_distribuerte_syst.Prot.Handle.Turn.{judge-round}
use in5020_distribuerte_syst.Tests.Conf.{table}
use in5020_distribuerte_syst.Tests.Memb.{first_header, five_packets, ring_member}

-- Each packet is an agreed message of the machine 11.
abbrev pub one_sender : Ring
one_sender = record { packet = λ n. record first_header { seq = n }; owner = λ n. 0 }

pub position_zero : (q n : ℕ) → position one_sender q n ≡ 0
unfolding position is_single is_end
position_zero q zero = refl
position_zero q (suc n) = elim (Bool-cases (0 == q)) [
  | inl same ↦ rw same refl
  | inr other ↦ rw other (position_zero q n)
]

pub one_sender-IsFramed : IsFramed one_sender
unfolding is_single index_of
one_sender-IsFramed = record {
  owners = λ n. omega arith;
  frames = λ n h. ap suc (sym (position_zero 0 n));
}

-- Packets 1 and 2 are there.
abbrev pub two_packets : Store
two_packets = record five_packets {
  exist = λ k. if ltb 0 k && ltb k 3 then 1 else 0;
  aru = 0;
  my_aru = 2;
  highest_seq = 2;
  last_discarded = 0;
  last_delivered = 0;
}

pub two_packets-IsSound : IsSound one_sender two_packets
unfolding ordered line position
two_packets-IsSound = record {
  behind = omega arith;
  ahead = omega arith;
  top = omega arith;
  room = omega arith;
  flags = λ e. ground arith;
  stored = λ i l m ne.
      let at : pack_entry i ≡ i = ground arith in (ground arith, ap one_sender.packet at, refl);
  held = λ i l m z. ground arith;
  done = λ i l m. absurd (omega arith);
  early = λ i l m z. absurd (ground arith);
  stream = record { in_line = refl; in_parts = λ q l. refl; no_part = refl };
}

deliver_agreed-IsAgreed_example :
    IsAgreed one_sender one_sender-IsFramed 0 2 2 0 (deliver_agreed false two_packets)
deliver_agreed-IsAgreed_example =
    deliver_agreed-IsAgreed one_sender one_sender-IsFramed two_packets two_packets-IsSound

-- The second packet comes again, and then the third.
abbrev pub incoming : List (Header × ℕ)
incoming = (one_sender.packet 2, 5) ∷ (one_sender.packet 3, 6) ∷ []

incoming-AllOf : AllOf one_sender table 0 incoming
unfolding AllOf proc_by_id
incoming-AllOf = (
  record { near = omega arith; same = refl; owned = λ e. cc },
  (record { near = omega arith; same = refl; owned = λ e. cc }, tt),
)

insert_packets-IsSound_example :
    (s' : Store) × (insert_packets false table incoming two_packets ≡ some s')
    × IsSound one_sender s'
    × (s'.aru ≡ 0)
    × (s'.last_discarded ≡ 0)
insert_packets-IsSound_example =
    insert_packets-IsSound one_sender table incoming two_packets one_sender-IsFramed (omega arith)
      incoming-AllOf two_packets-IsSound

-- The first packet is known to be everywhere.
abbrev pub one_known : Store
one_known = record two_packets { aru = 1 }

pub one_known-IsSound : IsSound one_sender one_known
one_known-IsSound =
    let v = two_packets-IsSound in
    record {
      behind = v.behind;
      ahead = v.ahead;
      top = v.top;
      room = v.room;
      flags = v.flags;
      stored = v.stored;
      held = v.held;
      done = v.done;
      early = v.early;
      stream = record {
        in_line = v.stream.in_line;
        in_parts = v.stream.in_parts;
        no_part = v.stream.no_part;
      };
    }

discard_old-IsSound_example :
    (s' : Store) × (discard_old one_known ≡ some s')
    × IsSound one_sender s'
    × (s'.aru ≡ 1)
    × (s'.my_aru ≡ 2)
    × (s'.highest_seq ≡ 2)
    × (s'.last_discarded ≡ latest 1 0)
discard_old-IsSound_example =
    discard_old-IsSound one_sender one_sender-IsFramed one_known (omega arith) one_known-IsSound

-- One daemon gets the two packets, the other none.
insert_packets_agree_example :
    (s' : Store) × (t' : Store) × (insert_packets false table incoming two_packets ≡ some s')
    × (insert_packets false table [] one_known ≡ some t')
    × (GoesOn s' t' ⊎ GoesOn t' s')
unfolding AllOf
insert_packets_agree_example =
    insert_packets_agree one_sender table incoming [] two_packets one_known one_sender-IsFramed
      (omega arith, incoming-AllOf, two_packets-IsSound) (omega arith, tt, one_known-IsSound)

abbrev pub no_answers : Answers
no_answers = record { num_retrans = 0; proc_id = none; seg_index = none; net = two_packets.net }

-- A token of the ring in which all have packet 2.
abbrev pub full_token : TokenHeader
full_token = record {
  kind = 65536;
  seq = 2;
  proc_id = 11;
  aru = 2;
  aru_last_id = 11;
  flow_control = pos 0;
  rtr_len = 0;
}

judge-round_example :
    (((judge true 0 983040).1 ≡ take_it) ↔ (get_arq 983040 ≡ get_arq 0))
    × (((judge false 0 983040).1 ≡ take_it) ↔ (get_arq 983040 ≡ suc (get_arq 0) % 16))
    × ((leads : Bool)
        → judge leads (next_kind leads 983040) 983040 ≡ (next_kind leads 983040, swallow))
    × (judge false 983040 (next_kind true 983040) ≡ (983040, take_it))
    × (judge true (next_kind true 983040) (next_kind true 983040)
        ≡ (next_kind true 983040, take_it))
judge-round_example = judge-round 0 983040

next_aru_lem_example :
    let x = next_aru full_token 12 1 2 (negsuc 0) in
    (x.0 ≤ 1) × ((x.0 ≡ 1) ⊎ ((x.0 ≡ 2) × (x.1 ≡ 11))) × (x.0 < 2 → x.1 ≡ 12)
next_aru_lem_example = next_aru_lem full_token 12 1 2 (negsuc 0)

known : IsKnown ring_member.table ring_member.cn.segments
unfolding IsKnown AllKnown proc_by_id
known = (((0, refl), ((1, refl), tt)), (((2, refl), tt), tt))

-- Two of the three members are pending.
abbrev pub two_pending : Daemon
two_pending = record ring_member { commit_set = record ring_member.commit_set { num_pending = 2 } }

transitional_memb-among_example :
    (d' : Daemon) × (transitional_memb two_pending ≡ some d')
    × (d'.trans_membership.segments
        ≡ map (among_segment (pending_ids two_pending.commit_set)) two_pending.cn.segments)
    × (d'.commit_membership.segments
        ≡ map (among_segment (active two_pending.commit_set)) two_pending.cn.segments)
    × (d'.trans_memb_id.proc_id ≡ 11)
unfolding leader among_segment
transitional_memb-among_example = transitional_memb-among two_pending 11 known refl
