-- ===== src/Prot/Store.antt =====
-- daemon/prot_body.h and daemon/net_types.h: packets, and the variables of the ordering protocol.
-- `packet_info` is taken apart: `exist`, `head`, `body` and `proc_index` are functions of the entry.
-- A buffer is a number for its content, so that a copy of it is the buffer itself.
use in5020_distribuerte_syst.Prelude.{
  ℕ, ◌%◌, Bool, true, false, not, ◌&&◌, ◌==◌, if◌then◌else◌, List, Option, ℤ, pos, negsuc, suc,
}
use Prim.Native.Nat.{bit_and}

pub record MembershipId : Type 0 where
  pub proc_id : ℕ
  pub time : ℤ

-- `packet_header`, without the fields that only the network reads.
pub record Header : Type 0 where
  pub kind : ℕ
  pub proc_id : ℕ
  pub memb_id : MembershipId
  pub seq : ℕ
  pub fifo_seq : ℕ
  pub packet_index : ℤ
  pub data_len : ℕ

-- `scat_element`.
pub record Element : Type 0 where
  pub len : ℕ
  pub buf : ℕ

-- `down_link`, and `down_queue` as the list of its links: `num_mess` is its length.
pub record DownLink : Type 0 where
  pub kind : ℕ
  pub mess : List Element

pub record DownQueue : Type 0 where
  pub links : List DownLink
  pub cur_element : ℕ

-- `token_header`, without the fields that only the network reads.
pub record TokenHeader : Type 0 where
  pub kind : ℕ
  pub seq : ℕ
  pub proc_id : ℕ
  pub aru : ℕ
  pub aru_last_id : ℕ
  pub flow_control : ℤ
  pub rtr_len : ℕ

-- A requests part of a token, `ring_rtr`: `proc_id` and `seg_index` are -1 for none.
pub record RingRtr : Type 0 where
  pub memb_id : MembershipId
  pub proc_id : Option ℕ
  pub seg_index : Option ℕ
  pub seqs : List ℕ

-- An element of `Queue_scat`, by what its buffer holds: a header, the data of a packet with its
-- length, or bytes of padding.
pub data Part : Type 0 where
  heading : Header → Part
  content : ℕ → ℕ → Part
  filling : ℕ → Part

-- What goes to the network: packets by `Net_bcast`, `Net_ucast` and `Net_scast`, and tokens.
pub data Wire : Type 0 where
  bcast : List Part → Wire
  ucast : ℕ → Header → ℕ → Wire
  scast : ℕ → Header → ℕ → Wire
  token : TokenHeader → List RingRtr → Wire

-- `Queue_scat`, as the list of its elements, and `Queued_bytes` of daemon/network.c, with what
-- `DL_send` answers to each flush: true for a result above 0. `scatter_size` is ARCH_SCATTER_SIZE of the machine.
pub record Net : Type 0 where
  pub queued : List Part
  pub queued_bytes : ℕ
  pub scatter_size : ℕ
  pub accepts : ℕ → Bool
  -- whether Conf_proc_by_id finds a process
  pub knows : ℕ → Bool
  pub flushes : ℕ
  -- what has been sent, oldest first
  pub wire : List Wire

pub record Store : Type 0 where
  -- `Packets`: 0 for no packet, 1 for one to deliver, 2 for one delivered, 3 for a hole
  pub exist : ℕ → ℕ
  pub head : ℕ → Header
  pub body : ℕ → ℕ
  pub proc_index : ℕ → ℕ
  -- `Up_queue`: the part of a message that has been delivered; none if `exist` is 0
  pub up_queue : ℕ → Option (List Element)
  -- `Protocol_down_queue`, and which of them `Down_queue_ptr` points to
  pub down_queue : ℕ → DownQueue
  pub down_type : ℕ
  -- session.c: `Protocol_threshold`
  pub protocol_threshold : ℕ
  -- network.c
  pub net : Net
  pub aru : ℕ
  pub my_aru : ℕ
  pub highest_seq : ℕ
  pub highest_fifo_seq : ℕ
  pub last_discarded : ℕ
  pub last_delivered : ℕ
  pub last_seq : ℕ
  pub set_aru : ℤ
  pub token_rounds : ℕ
  pub token_counter : ℕ
  pub last_num_retrans : ℕ
  pub last_num_sent : ℕ
  pub last_token : TokenHeader
  -- the headers of the packets delivered, the last one first: `GlobalStatus.packet_delivered` is
  -- their number
  pub delivered : List Header
  -- what `Sess_deliver_message` was given, oldest first
  pub messages : List (List Element)

-- `i & PACKET_MASK`.
abbrev pub pack_entry : ℕ → ℕ
pack_entry i = i % 8192

-- A write of one entry.
abbrev pub put {ℓ} : {A : Type ℓ} → (ℕ → A) → ℕ → A → ℕ → A
put f e v k = if k == e then v else f k

-- The masks of daemon/net_types.h.
abbrev pub reliable_type : ℕ
reliable_type = 0x2

abbrev pub safe_type : ℕ
safe_type = 0x10

abbrev pub regular_type : ℕ
regular_type = 0x1f

abbrev pub has_bits : ℕ → ℕ → Bool
has_bits kind mask = not (bit_and kind mask == 0)

-- `Is_safe`.
unfoldable pub is_safe : Header → Bool
is_safe h = has_bits h.kind safe_type

abbrev pub is_minus_one : ℤ → Bool
is_minus_one (pos n) = false
is_minus_one (negsuc n) = n == 0

-- A reliable message of one packet, which needs no order.
unfoldable pub is_single : Header → Bool
is_single h = has_bits h.kind reliable_type && is_minus_one h.packet_index

-- The last packet of a message has a negative index.
unfoldable pub is_end : Header → Bool
is_end h = elim h.packet_index [ pos n ↦ false | negsuc n ↦ true ]

unfoldable pub index_of : Header → ℕ
index_of h = elim h.packet_index [ pos n ↦ n | negsuc n ↦ suc n ]
