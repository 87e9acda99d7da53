-- ===== src/Prot/Send/Packet.antt =====
-- daemon/protocol.c: a packet that `Send_new_packets` sends goes on with the ring.
use in5020_distribuerte_syst.Prelude.{
  ℕ, suc, ◌+◌, ◌<◌, ◌≤◌, ◌≡◌, refl, sym, ap, ◌∙◌, Bool, true, false, ◌==◌, ==_refl, ltb,
  if◌then◌else◌, List, length, some, arith, Bool-cases, inl, inr,
}
use in5020_distribuerte_syst.Prot.Store.{Store, Net, Header, DownLink, DownQueue, put, pack_entry}
use in5020_distribuerte_syst.Prot.Net.{flush_bcast, queue_bcast, reset_elements, is_full}
use in5020_distribuerte_syst.Prot.Deliver.Stream.{Ring, IsFramed, position}
use in5020_distribuerte_syst.Prot.Deliver.Order.{IsSound}
use in5020_distribuerte_syst.Prot.Deliver.Extend.{
  Agrees-refl, Agrees-trans, IsSound-Agrees, extend, extend_last, extend-Agrees, extend-IsFramed,
}
use in5020_distribuerte_syst.Prot.Send.{
  Sender, down, new_header, keep_packet, send_element, send_packet, bit,
}
use in5020_distribuerte_syst.Prot.Send.Whole.{get_elem?-below, next_queue}
use in5020_distribuerte_syst.Prot.Send.Ordered.{
  Extends, pass_element-same, header_index, header_end, next_cur, position-extend, next_free,
  keep_packet-IsSound,
}

-- Whether a datagram waits.
unfoldable pub pending : Net → ℕ
pending n = if n.queued_bytes == 0 then 0 else 1

pub pending-le : (n : Net) → pending n ≤ 1
unfolding pending
pending-le n = ground arith

pub flush-pending : (n : Net) → bit (flush_bcast n).0 ≤ pending n
unfolding flush_bcast pending
flush-pending n = elim (Bool-cases (n.queued_bytes == 0)) [
  | inl empty ↦ rw empty (omega arith)
  | inr full ↦ rw full (bit-le (n.accepts n.flushes))
]
  where
    bit-le : (b : Bool) → bit b ≤ 1
    bit-le true = omega arith
    bit-le false = omega arith

-- A datagram that goes out was waiting.
queue-pending : (h : Header) (b : ℕ) (n : Net) → bit (queue_bcast h b n).0 ≤ pending n
unfolding queue_bcast pending
queue-pending h b n =
    let m = reset_elements n in
    elim (Bool-cases (is_full h m)) [
      | inl full ↦ rw full (unfold pending in (flush-pending m))
      | inr fits ↦ rw fits (omega arith)
    ]

pub Extends-refl :
    (ring : Ring) (index : ℕ) (s : Store)
    → IsFramed ring
    → IsSound ring s
    → position ring index s.highest_seq ≡ (down s).cur_element
    → Extends ring index s s
Extends-refl ring index s f v at = record {
  on = ring;
  framed = f;
  agrees = Agrees-refl s.highest_seq ring;
  sound = v;
  turn = at;
  grows = omega arith;
  low = refl;
  mine = refl;
  same_aru = refl;
}

pub Extends-trans :
    (ring : Ring) (index : ℕ) (s t u : Store) (x : Extends ring index s t)
    → Extends x.on index t u
    → Extends ring index s u
Extends-trans ring index s t u x y = record {
  on = y.on;
  framed = y.framed;
  agrees = Agrees-trans s.highest_seq t.highest_seq ring x.on y.on x.grows x.agrees y.agrees;
  sound = y.sound;
  turn = y.turn;
  grows = omega (arith, x.grows, y.grows);
  low = y.low ∙ x.low;
  mine = y.mine ∙ x.mine;
  same_aru = y.same_aru ∙ x.same_aru;
}

-- A packet is sent.
pub send_packet-Extends :
    (ring : Ring) (me : Sender) (l : DownLink) (rest : List DownLink) (s : Store)
    → IsFramed ring
    → me.index < 128
    → IsSound ring s
    → (down s).cur_element < length l.mess
    → position ring me.index s.highest_seq ≡ (down s).cur_element
    → s.highest_seq < s.last_discarded + 8192
    → (x : Bool × Store) × (send_packet me l rest s ≡ some x)
      × Extends ring me.index s x.1
      × (down x.1 ≡ next_queue l rest (suc (down s).cur_element))
      × (x.1.highest_seq ≡ suc s.highest_seq)
      × (bit x.0 ≤ pending s.net)
unfolding send_packet send_element
send_packet-Extends ring me l rest s f index v few at room =
    let c = (down s).cur_element in
    let n = s.highest_seq in
    let (el, e) = get_elem?-below l.mess c few in
    let h = new_header me l el (suc c) s in
    let (t, same) = pass_element-same l rest (suc c) s in
    let q = put s.down_queue s.down_type (next_queue l rest (suc c)) in
    let s1 = record s { down_queue = q; protocol_threshold = t } in
    let free : (s.exist (pack_entry (suc n)) == 0) ≡ true = rw (next_free ring s v room) refl in
    let ring' = extend (suc n) h me.index ring in
    let a = extend-Agrees n h me.index ring in
    let (p, w) = extend_last (suc n) h me.index ring in
    let i = header_index me l el c s few in
    let v' =
      keep_packet-IsSound ring' me h el.buf q t s (IsSound-Agrees n ring ring' a s (omega arith) v)
        refl room (sym p) (sym w) in
    let queue : down (keep_packet me h el.buf s1) ≡ next_queue l rest (suc c) =
      kept h el.buf q t ∙ put-self in
    (
      ((queue_bcast h el.buf s.net).0, keep_packet me h el.buf s1),
      rw (e, free)
          (ap (λ y. some ((queue_bcast h el.buf s.net).0, keep_packet me h el.buf y)) same),
      record {
        on = ring';
        framed = extend-IsFramed n h me.index ring f index (λ many. i ∙ ap suc (sym at));
        agrees = a;
        sound = v';
        turn =
            unfold keep_packet in
            (position-extend ring n me.index c h (ltb (suc c) (length l.mess)) at i
                (header_end me l el c s)
              ∙ sym (next_cur l rest c)
              ∙ ap (λ x. x.cur_element) (sym queue));
        grows = unfold keep_packet in (omega arith);
        low = unfold keep_packet in refl;
        mine = unfold keep_packet in refl;
        same_aru = unfold keep_packet in refl;
      },
      queue,
      unfold keep_packet in refl,
      queue-pending h el.buf s.net,
    )
  where
    nq : DownQueue
    nq = next_queue l rest (suc (down s).cur_element)

    put-self : put s.down_queue s.down_type nq s.down_type ≡ nq
    put-self = rw (==_refl s.down_type) refl

    kept :
        (h : Header) (b : ℕ) (q : ℕ → DownQueue) (t : ℕ)
        → down (keep_packet me h b (record s { down_queue = q; protocol_threshold = t }))
          ≡ q s.down_type
    kept h b q t = unfold keep_packet in refl
