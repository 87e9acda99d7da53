-- ===== src/Tests/Token.antt =====
-- daemon/protocol.c: tokens and new packets on small inputs.
use in5020_distribuerte_syst.Prelude.{
  ℕ, ◌+◌, ◌≤◌, ◌≡◌, ◌⊎◌, refl, false, is_none, List, [], ◌∷◌, ◌++◌, none, some, pos, arith,
}
use in5020_distribuerte_syst.Conf.{proc_by_id, leader}
use in5020_distribuerte_syst.Memb.State.{Daemon}
use in5020_distribuerte_syst.Prot.Store.{Store, DownLink, RingRtr, MembershipId}
use in5020_distribuerte_syst.Prot.Deliver.Order.{IsSound}
use in5020_distribuerte_syst.Prot.Evs.{with_store}
use in5020_distribuerte_syst.Prot.Send.{down, waiting, send_new_packets}
use in5020_distribuerte_syst.Prot.Send.Whole.{IsWhole, AllWhole, remaining}
use in5020_distribuerte_syst.Prot.Send.Ordered.{Extends}
use in5020_distribuerte_syst.Prot.Send.Extends.{send_new_packets-Extends}
use in5020_distribuerte_syst.Prot.Deliver.Extend.{framed_in-IsSound}
use in5020_distribuerte_syst.Prot.Handle.Whole.{IsDue, Follows, handle_token-Follows}
use in5020_distribuerte_syst.Prot.Token.{
  Answers, get_arq, my_requests, rtr_bytes, token_body_size, answer_retrans,
}
use in5020_distribuerte_syst.Prot.Token.Aru.{AllMissing, my_requests_lem}
use in5020_distribuerte_syst.Prot.Token.Requests.{
  asks_old, asks_below, others, asked_for, answer_retrans-IsPassed,
}
use in5020_distribuerte_syst.Prot.Handle.{judge}
use in5020_distribuerte_syst.Prot.Handle.Token.{TokenIn, see_seq, handle_token}
use in5020_distribuerte_syst.Tests.Conf.{machine}
use in5020_distribuerte_syst.Tests.Memb.{ring_member}
use in5020_distribuerte_syst.Tests.Prot.{
  one_sender, position_zero, one_sender-IsFramed, two_packets, two_packets-IsSound, one_known,
  no_answers, full_token,
}

abbrev pub ring_id : MembershipId
ring_id = record { proc_id = 11; time = pos 100 }

-- Packet 3 is known, and missing.
abbrev pub misses_third : Store
misses_third = record two_packets { highest_seq = 3 }

my_requests_lem_example :
    (rtr_bytes (my_requests misses_third ring_id [] no_answers) ≤ token_body_size)
    × ((my_requests misses_third ring_id [] no_answers ≡ [])
        ⊎ ((r : RingRtr) × (my_requests misses_third ring_id [] no_answers ≡ [] ++ (r ∷ []))
            × AllMissing misses_third 2 3 r.seqs))
unfolding rtr_bytes
my_requests_lem_example = my_requests_lem misses_third ring_id [] no_answers small
  where
    small : rtr_bytes [] ≤ token_body_size
    small = omega arith

abbrev pub requests : List RingRtr
requests =
    record { memb_id = ring_id; proc_id = none; seg_index = none; seqs = 2 ∷ 3 ∷ [] }
    ∷ record {
      memb_id = record ring_id { proc_id = 21 };
      proc_id = none;
      seg_index = none;
      seqs = 0 ∷ [];
    }
    ∷ []

answer_retrans-IsPassed_example :
    (is_none (answer_retrans one_known ring_id 12 0 requests) ≡ asks_old 1 ring_id requests)
    × ((x : List RingRtr × Answers)
        → answer_retrans one_known ring_id 12 0 requests ≡ some x
        → (x.0 ≡ others ring_id requests) × (x.1.num_retrans ≤ asked_for ring_id requests + 1))
answer_retrans-IsPassed_example = answer_retrans-IsPassed one_known ring_id 12 0 requests

abbrev pub two_elements : DownLink
two_elements = record {
  kind = 8;
  mess = record { len = 100; buf = 1 } ∷ record { len = 20; buf = 2 } ∷ [];
}

-- Two messages wait.
abbrev pub sending : Store
sending = record two_packets {
  down_queue = λ k. record { links = two_elements ∷ two_elements ∷ []; cur_element = 0 };
}

pub sending-IsSound : IsSound one_sender sending
sending-IsSound = framed_in-IsSound one_sender two_packets sending two_packets-IsSound

sending-IsWhole : IsWhole (down sending)
unfolding IsWhole AllWhole
sending-IsWhole = (omega arith, (omega arith, tt))

send_new_packets-Extends_example :
    (x : ℕ × Store) × (send_new_packets (record { id = 12; index = 1; memb_id = ring_id }) 5 sending
      ≡ some x)
    × Extends one_sender 1 sending x.1
    × (x.0 + 2 ≤ x.1.highest_seq)
    × ((5 ≤ x.0) ⊎ ((down x.1).links ≡ []))
unfolding remaining waiting
send_new_packets-Extends_example =
    send_new_packets-Extends one_sender (record { id = 12; index = 1; memb_id = ring_id }) 5 sending
      one_sender-IsFramed (omega arith) sending-IsSound refl sending-IsWhole (position_zero 1 2)
      (omega arith)

abbrev pub token_in : TokenIn
token_in = record { bytes = 32; header = full_token; rtrs = [] }

token_in-IsDue : IsDue one_sender token_in (with_store ring_member sending) 1
unfolding remaining waiting asks_old asks_below
token_in-IsDue = record {
  regular = refl;
  sound = sending-IsSound;
  small = omega arith;
  whole = sending-IsWhole;
  turn = position_zero 1 2;
  space = omega arith;
  young = refl;
}

handle_token-Follows_example :
    let d = with_store ring_member sending in
    (d' : Daemon) × (handle_token token_in d ≡ some d')
    × Follows one_sender (see_seq 2 sending).highest_seq d d'
unfolding proc_by_id leader judge get_arq
handle_token-Follows_example =
    handle_token-Follows one_sender false token_in (with_store ring_member sending) 1
      (machine 12 0 1) one_sender-IsFramed refl token_in-IsDue refl refl refl refl
