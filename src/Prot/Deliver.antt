-- ===== src/Prot/Deliver.antt =====
-- daemon/protocol.c: `Deliver_packet`, `Deliver_reliable_packets`, `Deliver_agreed_packets` and
-- `Discard_packets` outside EVS. `none` is an exit.
pub mod Stream
pub mod Discard
pub mod Early
pub mod Order
pub mod Extend
pub mod Empty
use in5020_distribuerte_syst.Prelude.{
  ℕ, zero, suc, ◌+◌, ◌-◌, Bool, true, false, not, ◌&&◌, ◌==◌, ltb, leb, if◌then◌else◌, List, [],
  ◌∷◌, ◌++◌, Option, none, some, length, ◌>>=◌,
}
use in5020_distribuerte_syst.Memb.Members.{max_procs_ring}
use in5020_distribuerte_syst.Prot.Store.{
  Store, Header, Element, put, pack_entry, is_single, is_safe, is_end, index_of,
}

-- The part of a message in a place of `Up_queue`.
abbrev pub parts : Option (List Element) → List Element
parts none = []
parts (some xs) = xs

-- The place of `Up_queue` for a packet.
pub place_of : ℕ → Store → ℕ
place_of e s = if is_single (s.head e) then max_procs_ring else s.proc_index e

pub chained : ℕ → Store → List Element
unfolding place_of
chained e s =
    parts (s.up_queue (place_of e s)) ++ (record { len = (s.head e).data_len; buf = s.body e } ∷ [])

-- The packet chained to its message, which goes up where the packet ends it.
pub chain : ℕ → Store → Store
unfolding chained place_of
chain e s = record s {
  exist = put s.exist e 2;
  up_queue = put s.up_queue (place_of e s) (if is_end (s.head e) then none else some (chained e s));
  delivered = s.head e ∷ s.delivered;
  messages = if is_end (s.head e) then s.messages ++ (chained e s ∷ []) else s.messages;
}

-- `Deliver_packet`. A packet out of its place in the message ends the program.
pub deliver_packet : ℕ → Store → Option Store
unfolding chain chained
deliver_packet e s = if length (chained e s) == index_of (s.head e) then some (chain e s) else none

-- The loop of `Deliver_reliable_packets`, with the rounds left.
pub reliable_from : ℕ → ℕ → Store → Option Store
unfolding deliver_packet
reliable_from zero i s = some s
reliable_from (suc n) i s =
    (if (s.exist (pack_entry i) == 1) && is_single (s.head (pack_entry i))
      then deliver_packet (pack_entry i) s
      else some s)
    >>= λ s'. reliable_from n (suc i) s'

unfoldable pub deliver_reliable : (evs : Bool) (start_seq num_packets : ℕ) → Store → Option Store
unfolding reliable_from
deliver_reliable evs start_seq num_packets s =
    if evs
    then some s
    else if leb start_seq s.last_delivered
    then reliable_from (start_seq + num_packets - suc s.last_delivered) (suc s.last_delivered) s
    else reliable_from num_packets start_seq s

abbrev pub pass_one : Store → Store
pass_one s = record s { last_delivered = suc s.last_delivered }

-- The loop of `Deliver_agreed_packets`.
pub agreed_from : ℕ → ℕ → Store → Option Store
unfolding deliver_packet
agreed_from zero i s = some s
agreed_from (suc n) i s =
    if s.exist (pack_entry i) == 1
    then (if not (is_safe (s.head (pack_entry i)))
        then (deliver_packet (pack_entry i) s >>= λ s'. agreed_from n (suc i) (pass_one s'))
        else some s)
    else if s.exist (pack_entry i) == 2
    then agreed_from n (suc i) (pass_one s)
    else none

unfoldable pub deliver_agreed : (evs : Bool) → Store → Option Store
unfolding agreed_from
deliver_agreed evs s =
    if leb s.my_aru s.last_delivered
    then some s
    else if evs
    then some s
    else agreed_from (s.my_aru - s.last_delivered) (suc s.last_delivered) s

abbrev pub free : ℕ → Store → Store
free e s = record s { exist = put s.exist e 0 }

-- The loop of `Discard_packets` outside EVS.
pub discard_from : ℕ → ℕ → Store → Option Store
unfolding deliver_packet
discard_from zero i s = some s
discard_from (suc n) i s =
    if s.exist (pack_entry i) == 0
    then none
    else (if s.exist (pack_entry i) == 1 then deliver_packet (pack_entry i) s else some s) >>= λ s'.
        discard_from n (suc i) (free (pack_entry i) s')

abbrev pub advance : Store → Store
advance s = record s {
  last_discarded = s.aru;
  last_delivered = if ltb s.last_delivered s.aru then s.aru else s.last_delivered;
}

unfoldable pub discard_old : Store → Option Store
unfolding discard_from
discard_old s =
    if leb s.aru s.last_discarded
    then some s
    else discard_from (s.aru - s.last_discarded) (suc s.last_discarded) s >>= λ s'.
        some (advance s')
