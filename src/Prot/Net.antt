-- ===== src/Prot/Net.antt =====
-- daemon/network.c: `Net_queue_bcast` and `Net_flush_bcast`, which pack small packets into one
-- datagram. What routing writes into a header is not modelled.
pub mod Packed
pub mod Layout
use in5020_distribuerte_syst.Prelude.{
  ℕ, zero, suc, ◌+◌, ◌-◌, ◌%◌, Bool, true, false, ◌||◌, ◌==◌, ltb, if◌then◌else◌, List, [], ◌∷◌,
  ◌++◌, length,
}
use in5020_distribuerte_syst.Prot.Store.{Header, Net, Wire, bcast, Part, heading, content, filling}

abbrev pub max_packet_size : ℕ
max_packet_size = 1472

-- sizeof(packet_header).
abbrev pub header_size : ℕ
header_size = 36

-- Whether the result is above 0, and the empty queue.
unfoldable pub flush_bcast : Net → Bool × Net
flush_bcast n = if n.queued_bytes == 0 then (false, n) else (
  n.accepts n.flushes,
  record n {
    queued = [];
    queued_bytes = 0;
    flushes = suc n.flushes;
    wire = n.wire ++ (bcast n.queued ∷ []);
  },
)

-- The bytes that fill a datagram up to a multiple of 4, and their element.
abbrev pub padding : ℕ → ℕ
padding bytes = (4 - bytes % 4) % 4

abbrev pub pad_of : ℕ → List Part
pad_of zero = []
pad_of (suc k) = filling (suc k) ∷ []

abbrev pub elements : Header → ℕ → List Part
elements h b = heading h ∷ content h.data_len b ∷ []

abbrev pub part_len : Part → ℕ
part_len (heading h) = header_size
part_len (content len b) = len
part_len (filling k) = k

-- The packet added behind the padding.
unfoldable pub append_packet : ℕ → Header → ℕ → Net → Net
append_packet align h b n = record n {
  queued = n.queued ++ (pad_of align ++ elements h b);
  queued_bytes = n.queued_bytes + align + (header_size + h.data_len);
}

abbrev pub is_full : Header → Net → Bool
is_full h n =
    ltb max_packet_size (n.queued_bytes + (header_size + h.data_len) + padding n.queued_bytes)
    || ltb n.scatter_size (length n.queued + 2 + length (pad_of (padding n.queued_bytes)))

-- An empty datagram has no elements.
abbrev pub reset_elements : Net → Net
reset_elements n = record n { queued = if n.queued_bytes == 0 then [] else n.queued }

unfoldable pub queue_bcast : Header → ℕ → Net → Bool × Net
unfolding flush_bcast append_packet
queue_bcast h b net =
    let n = reset_elements net in
    if is_full h n
    then (let (ret, n') = flush_bcast n in (ret, append_packet 0 h b n'))
    else (false, append_packet (padding n.queued_bytes) h b n)
