-- ===== src/Prot/Send.antt =====
-- daemon/protocol.c: `Prot_set_down_queue`, `Prot_new_message` and `Send_new_packets`. `none` is an
-- exit.
pub mod Whole
pub mod Ordered
pub mod Packet
pub mod Extends
use in5020_distribuerte_syst.Prelude.{
  ℕ, zero, suc, ◌+◌, ◌-◌, Bool, true, false, not, ◌&&◌, ◌==◌, ltb, leb, if◌then◌else◌, List, [],
  ◌∷◌, ◌++◌, Option, none, some, length, get_elem?, ℤ, pos, negsuc, ◌>>=◌,
}
use in5020_distribuerte_syst.Prot.Store.{
  Store, Header, Element, DownLink, DownQueue, MembershipId, Net, put, pack_entry,
}
use in5020_distribuerte_syst.Prot.Net.{flush_bcast, queue_bcast}

abbrev pub water_mark : ℕ
water_mark = 500

-- LOW_PRIORITY and MEDIUM_PRIORITY.
abbrev pub block_users : Store → Store
block_users s = if ltb s.protocol_threshold 1 then record s { protocol_threshold = 1 } else s

abbrev pub unblock_users : Store → Store
unblock_users s = if ltb 0 s.protocol_threshold then record s { protocol_threshold = 0 } else s

-- `Prot_set_down_queue`: 0 for NORMAL_DOWNQUEUE and 1 for GROUPS_DOWNQUEUE.
unfoldable pub set_down_queue : ℕ → Store → Option Store
set_down_queue kind s = if ltb kind 2 then some (record s { down_type = kind }) else none

-- `*Down_queue_ptr`.
abbrev pub down : Store → DownQueue
down s = s.down_queue s.down_type

abbrev pub set_down : DownQueue → Store → Store
set_down q s = record s { down_queue = put s.down_queue s.down_type q }

-- The message put into the queue, by `Prot_new_message`. What follows is whether the token is to be
-- asked for.
unfoldable pub enqueue : DownLink → Store → Bool × Store
enqueue l s =
    let links = (down s).links ++ (l ∷ []) in
    let queued = set_down (record { links = links; cur_element = (down s).cur_element }) s in
    (length links == 1, if leb water_mark (length links) then block_users queued else queued)

-- Who sends: `My.id`, `My_index` and `Memb_id()`.
pub record Sender : Type 0 where
  pub id : ℕ
  pub index : ℕ
  pub memb_id : MembershipId

-- The header of a packet of a message with `n` elements: `cur` counts it.
abbrev pub new_header : Sender → DownLink → Element → ℕ → Store → Header
new_header me l el cur s = record {
  kind = l.kind;
  proc_id = me.id;
  memb_id = me.memb_id;
  seq = suc s.highest_seq;
  fifo_seq = suc s.highest_fifo_seq;
  packet_index = if ltb cur (length l.mess) then pos cur else negsuc (length l.mess - 1);
  data_len = el.len;
}

-- The queue behind the packet: the message leaves it with its last packet.
unfoldable pub pass_element : DownLink → List DownLink → ℕ → Store → Store
pass_element l rest cur s =
    if ltb cur (length l.mess)
    then set_down (record { links = l ∷ rest; cur_element = cur }) s
    else (let s' = set_down (record { links = rest; cur_element = 0 }) s in
        if ltb (length rest) water_mark then unblock_users s' else s')

-- "insert new created packet".
unfoldable pub keep_packet : Sender → Header → ℕ → Store → Store
keep_packet me h buf s = record s {
  exist = put s.exist (pack_entry h.seq) 1;
  head = put s.head (pack_entry h.seq) h;
  body = put s.body (pack_entry h.seq) buf;
  proc_index = put s.proc_index (pack_entry h.seq) me.index;
  highest_seq = h.seq;
  highest_fifo_seq = h.fifo_seq;
  net = (queue_bcast h buf s.net).1;
}

-- One round of `Send_new_packets`, with the message `l` at the head of the queue and its element
-- `el`: whether a datagram went out.
unfoldable pub send_element :
    Sender → DownLink → List DownLink → Element → Store → Option (Bool × Store)
unfolding pass_element keep_packet
send_element me l rest el s =
    let cur = suc (down s).cur_element in
    let h = new_header me l el cur s in
    if s.exist (pack_entry h.seq) == 0
    then some ((queue_bcast h el.buf s.net).0, keep_packet me h el.buf (pass_element l rest cur s))
    else none

unfoldable pub send_packet : Sender → DownLink → List DownLink → Store → Option (Bool × Store)
unfolding send_element
send_packet me l rest s =
    get_elem? l.mess (down s).cur_element >>= λ el. send_element me l rest el s

abbrev pub bit : Bool → ℕ
bit true = 1
bit false = 0

-- The loop, with the packets that are still allowed. It counts the datagrams sent, so that it may
-- go on as long as they are fewer than allowed: `fuel` bounds the rounds by the packets queued.
pub send_from : (fuel : ℕ) → Sender → (num_sent num_allowed : ℕ) → Store → Option (ℕ × Store)
unfolding send_packet
send_from zero me num_sent num_allowed s = some (num_sent, s)
send_from (suc fuel) me num_sent num_allowed s =
    if not (ltb num_sent num_allowed) then some (num_sent, s) else elim (down s).links [
      | [] ↦ some (num_sent, s)
      | l ∷ rest ↦
          send_packet me l rest s >>= λ x. send_from fuel me (num_sent + bit x.0) num_allowed x.1
    ]

-- The packets that wait in the queue.
unfoldable pub waiting : List DownLink → ℕ
waiting [] = 0
waiting (l ∷ ls) = length l.mess + waiting ls

unfoldable pub send_new_packets : Sender → ℕ → Store → Option (ℕ × Store)
unfolding send_from waiting
send_new_packets me num_allowed s =
    send_from (suc (waiting (down s).links)) me 0 num_allowed s >>= λ x.
    let (ret, n) = flush_bcast x.1.net in some (x.0 + bit ret, record x.1 { net = n })
