-- ===== src/Prot/Receive.antt =====
-- daemon/protocol.c: `Prot_handle_bcast` from the datagram on: its packets, and each of them. The
-- memory of a packet that is dropped has no state here. `none` is an exit.
pub mod Insert
pub mod Agreement
pub mod Datagram
use in5020_distribuerte_syst.Prelude.{
  ℕ, zero, suc, ◌+◌, ◌-◌, Bool, true, false, not, ◌&&◌, ◌==◌, ltb, leb, if◌then◌else◌, List, [],
  ◌∷◌, Option, none, some, ◌>>=◌,
}
use in5020_distribuerte_syst.Conf.{Proc, proc_by_id}
use in5020_distribuerte_syst.Prot.Store.{Store, Header, Part, heading, content, put, pack_entry}
use in5020_distribuerte_syst.Prot.Net.{header_size, part_len, padding}
use in5020_distribuerte_syst.Prot.Deliver.{deliver_agreed, deliver_reliable}

-- `elements[1].buf` from the byte `o` on, where an element begins there.
pub from_byte : ℕ → List Part → Option (List Part)
from_byte o [] = if o == 0 then some [] else none
from_byte o (p ∷ ps) =
    let rest = from_byte (o - part_len p) ps in
    if o == 0 then some (p ∷ ps) else if ltb o (part_len p) then none else rest

-- A header that is read at a byte, and the data of a packet. What is read across the elements that
-- were sent has no meaning here, and is `none`.
abbrev pub as_header : List Part → Option Header
as_header (heading h ∷ ps) = some h
as_header _ = none

abbrev pub as_content : ℕ → List Part → Option ℕ
as_content len (content l b ∷ ps) = if l == len then some b else none
as_content len _ = none

-- The end of a packet, moved up to a multiple of 4.
abbrev pub aligned : ℕ → ℕ
aligned total = total + padding total

-- The loop over the packets behind the first one. `fuel` bounds the rounds: each reads a header.
pub unpack_from : (fuel received total : ℕ) → List Part → Option (List (Header × ℕ))
unfolding from_byte
unpack_from zero received total buf = none
unpack_from (suc fuel) received total buf =
    if ltb total received
    then (from_byte total buf >>= λ ps. as_header ps >>= λ h.
        from_byte (total + header_size) buf >>= λ qs. as_content h.data_len qs >>= λ b.
        unpack_from fuel received (aligned (total + header_size + h.data_len)) buf >>= λ rest.
        some ((h, b) ∷ rest))
    else some []

-- The packets of a datagram of `received` bytes, from its first header and what follows it.
unfoldable pub unpack : (received : ℕ) → Header → List Part → Option (List (Header × ℕ))
unfolding unpack_from
unpack received h buf = do
  b ← as_content h.data_len buf
  rest ← unpack_from received (received - header_size) (aligned h.data_len) buf
  some ((h, b) ∷ rest)

-- The loop that raises `My_aru` over the packets that are there, from `j` on.
pub raise : ℕ → ℕ → (ℕ → ℕ) → ℕ → ℕ
raise zero j exist my_aru = my_aru
raise (suc n) j exist my_aru =
    let rest = raise n (suc j) exist (suc my_aru) in
    if exist (pack_entry j) == 0 then my_aru else rest

-- "insert new packet" and the update of `Highest_seq`.
unfoldable pub place_packet : ℕ → Header → ℕ → Store → Store
place_packet index h body s = record s {
  exist = put s.exist (pack_entry h.seq) 1;
  head = put s.head (pack_entry h.seq) h;
  body = put s.body (pack_entry h.seq) body;
  proc_index = put s.proc_index (pack_entry h.seq) index;
  highest_seq = if ltb s.highest_seq h.seq then h.seq else s.highest_seq;
}

abbrev pub raised : ℕ → Store → Store
raised j s = record s { my_aru = raise (suc s.highest_seq - j) j s.exist s.my_aru }

-- What follows the insertion.
unfoldable pub update : (evs : Bool) → ℕ → Store → Option Store
unfolding raise
update evs seq s =
    if seq == suc s.my_aru then deliver_agreed evs (raised seq s) else deliver_reliable evs seq 1 s

-- One round of the last loop of `Prot_handle_bcast`: a packet at or below `Aru`, one that is there,
-- and one of an unknown process are dropped; the -1 which that one leaves in the `proc_index` of an
-- empty entry is never read, and has no place here.
unfoldable pub insert_packet : (evs : Bool) → List Proc → Header → ℕ → Store → Option Store
unfolding place_packet update
insert_packet evs table h body s =
    if leb h.seq s.aru
    then some s
    else if not (s.exist (pack_entry h.seq) == 0)
    then some s
    else elim (proc_by_id table h.proc_id) [
      | none ↦ some s
      | some (index, p) ↦ update evs h.seq (place_packet index h body s)
    ]

pub insert_packets : (evs : Bool) → List Proc → List (Header × ℕ) → Store → Option Store
insert_packets evs table [] s = some s
insert_packets evs table ((h, body) ∷ ps) s =
    insert_packet evs table h body s >>= λ s'. insert_packets evs table ps s'
