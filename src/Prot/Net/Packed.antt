-- ===== src/Prot/Net/Packed.antt =====
-- daemon/network.c: the datagrams that packets are packed into.
use in5020_distribuerte_syst.Prelude.{
  ℕ, ◌+◌, ◌<◌, ◌≤◌, ◌≡◌, ◌≢◌, refl, sym, ap, ◌∙◌, subst, Bool, false, ◌==◌, ==_iff, if◌then◌else◌,
  List, [], ◌∷◌, ◌++◌, length, length-append, some, arith, Bool-cases, inl, inr,
}
use mathlib.Core.List.{append_assoc, append-nil}
use in5020_distribuerte_syst.Prot.Store.{Header, Net, Part, Wire, bcast, ucast, scast, token}
use in5020_distribuerte_syst.Prot.Net.{
  reset_elements, max_packet_size, header_size, padding, pad_of, elements, append_packet, is_full,
  flush_bcast, queue_bcast,
}
use in5020_distribuerte_syst.Prot.Net.Layout.{
  size, layout, packets_in, packets_in-layout, layout-append, layout-le, length-layout, size-behind,
}
use in5020_distribuerte_syst.Prot.Receive.Datagram.{AllFull, read_back, read_back-layout}

-- Each datagram on the wire is read back as the packets in it.
unfoldable pub AllReadable : List Wire → Type 0
AllReadable [] = Unit
AllReadable (bcast ps ∷ ws) = (read_back ps ≡ some (packets_in ps)) × AllReadable ws
AllReadable (ucast p h b ∷ ws) = AllReadable ws
AllReadable (scast p h b ∷ ws) = AllReadable ws
AllReadable (token t rs ∷ ws) = AllReadable ws

-- The datagram that waits fits a packet of the network and the scatter array, and its elements are
-- those of packets with data, laid out with padding; and what was sent is readable.
pub record IsPacked (n : Net) : Type 0 where
  pub small : n.queued_bytes ≤ max_packet_size
  pub few : length n.queued ≤ n.scatter_size
  pub array : 2 ≤ n.scatter_size
  pub bytes : n.queued_bytes ≡ size n.queued
  pub laid : n.queued ≡ layout (packets_in n.queued)
  pub full : AllFull (packets_in n.queued)
  pub readable : AllReadable n.wire

-- The packets of all broadcasts, oldest first.
pub packets_of : List Wire → List (Header × ℕ)
packets_of [] = []
packets_of (bcast ps ∷ ws) = packets_in ps ++ packets_of ws
packets_of (ucast p h b ∷ ws) = packets_of ws
packets_of (scast p h b ∷ ws) = packets_of ws
packets_of (token t rs ∷ ws) = packets_of ws

unfoldable pub all_packets : Net → List (Header × ℕ)
unfolding packets_of
all_packets n = packets_of n.wire ++ packets_in n.queued

packets_of-append :
    (ws : List Wire) (ps : List Part)
    → packets_of (ws ++ (bcast ps ∷ [])) ≡ packets_of ws ++ packets_in ps
unfolding packets_of
packets_of-append [] ps = append-nil (packets_in ps)
packets_of-append (bcast qs ∷ ws) ps =
    ap (λ xs. packets_in qs ++ xs) (packets_of-append ws ps)
    ∙ sym (append_assoc (packets_in qs) (packets_of ws) (packets_in ps))
packets_of-append (ucast p h b ∷ ws) ps = packets_of-append ws ps
packets_of-append (scast p h b ∷ ws) ps = packets_of-append ws ps
packets_of-append (token t rs ∷ ws) ps = packets_of-append ws ps

AllReadable-append :
    (ws : List Wire) (ps : List Part)
    → AllReadable ws
    → read_back ps ≡ some (packets_in ps)
    → AllReadable (ws ++ (bcast ps ∷ []))
unfolding AllReadable
AllReadable-append [] ps all e = (e, tt)
AllReadable-append (bcast qs ∷ ws) ps (first, all) e = (first, AllReadable-append ws ps all e)
AllReadable-append (ucast p h b ∷ ws) ps all e = AllReadable-append ws ps all e
AllReadable-append (scast p h b ∷ ws) ps all e = AllReadable-append ws ps all e
AllReadable-append (token t rs ∷ ws) ps all e = AllReadable-append ws ps all e

AllFull-append :
    (ps : List (Header × ℕ)) (h : Header) (b : ℕ)
    → AllFull ps
    → 0 < h.data_len
    → AllFull (ps ++ ((h, b) ∷ []))
unfolding AllFull
AllFull-append [] h b full l = (l, tt)
AllFull-append ((g, c) ∷ ps) h b (one, full) l = (one, AllFull-append ps h b full l)

read_back-queued-eq :
    (n : Net) → IsPacked n → n.queued_bytes ≢ 0 → read_back n.queued ≡ some (packets_in n.queued)
read_back-queued-eq n v ne = go (packets_in n.queued) v.laid v.full
  where
    none_there : n.queued ≡ layout [] → n.queued_bytes ≡ 0
    none_there e = v.bytes ∙ ap size e ∙ empty
      where
        empty : size (layout []) ≡ 0
        empty = unfold size layout in refl

    go : (ps : List (Header × ℕ)) → n.queued ≡ layout ps → AllFull ps → read_back n.queued ≡ some ps
    go [] e full = absurd (ne (none_there e))
    go ((h, b) ∷ ps) e full = ap read_back e ∙ read_back-layout h b ps full

-- Where the datagram that waits is one that Net_queue_bcast fills, and is not empty,
-- Prot_handle_bcast reads it back as the packets that were queued, in order; they are at most half
-- as many as the places of its array.
pub read_back-queued :
    (n : Net)
    → IsPacked n
    → n.queued_bytes ≢ 0
    → (read_back n.queued ≡ some (packets_in n.queued))
      × (length (packets_in n.queued) + length (packets_in n.queued) ≤ n.scatter_size)
read_back-queued n v ne = (
  read_back-queued-eq n v ne,
  omega (arith, length-layout (packets_in n.queued), ap length v.laid, v.few),
)

nonzero : (a : ℕ) → (a == 0) ≡ false → a ≢ 0
nonzero a e = ground arith

-- `Net_flush_bcast` sends what waits, and no datagram waits.
flush_bcast-IsPacked :
    (n : Net)
    → IsPacked n
    → IsPacked (flush_bcast n).1
      × ((flush_bcast n).1.queued_bytes ≡ 0)
      × (all_packets (flush_bcast n).1 ≡ all_packets n)
unfolding flush_bcast all_packets size layout packets_in AllFull
flush_bcast-IsPacked n v = elim (Bool-cases (n.queued_bytes == 0)) [
  | inl none_there ↦ rw none_there (v, (==_iff n.queued_bytes 0).0 none_there, refl)
  | inr some_there ↦ rw some_there (
    record {
      small = omega arith;
      few = omega arith;
      array = v.array;
      bytes = refl;
      laid = refl;
      full = tt;
      readable =
          AllReadable-append n.wire n.queued v.readable
            (read_back-queued-eq n v (nonzero n.queued_bytes some_there));
    },
    refl,
    append-nil (packets_of (n.wire ++ (bcast n.queued ∷ []))) ∙ packets_of-append n.wire n.queued,
  )
]

append_packet-IsPacked :
    (h : Header) (b : ℕ) (n : Net)
    → 0 < h.data_len
    → IsPacked n
    → n.queued_bytes + padding n.queued_bytes + (header_size + h.data_len) ≤ max_packet_size
    → length n.queued + length (pad_of (padding n.queued_bytes)) + 2 ≤ n.scatter_size
    → IsPacked (append_packet (padding n.queued_bytes) h b n)
      × (all_packets (append_packet (padding n.queued_bytes) h b n)
          ≡ all_packets n ++ ((h, b) ∷ []))
unfolding append_packet all_packets
append_packet-IsPacked h b n one v l m =
    let ps = packets_in n.queued in
    let k = padding n.queued_bytes in
    let new = pad_of k ++ elements h b in
    let laid' : n.queued ++ new ≡ layout (ps ++ ((h, b) ∷ [])) =
      ap (λ xs. xs ++ new) v.laid
      ∙ ap (λ j. layout ps ++ (pad_of (padding j) ++ elements h b)) (v.bytes ∙ ap size v.laid)
      ∙ sym (layout-append ps h b) in
    let in_it : packets_in (n.queued ++ new) ≡ ps ++ ((h, b) ∷ []) =
      ap packets_in laid' ∙ packets_in-layout (ps ++ ((h, b) ∷ [])) in
    (
      record {
        small = l;
        few = omega (arith, length-append n.queued new, length-append (pad_of k) (elements h b));
        array = v.array;
        bytes = omega (arith, size-behind n.queued k h b, v.bytes);
        laid = laid' ∙ ap layout (sym in_it);
        full = subst AllFull (sym in_it) (AllFull-append ps h b v.full one);
        readable = v.readable;
      },
      ap (λ xs. packets_of n.wire ++ xs) in_it
          ∙ sym (append_assoc (packets_of n.wire) ps ((h, b) ∷ [])),
    )

-- An empty datagram has no elements.
queued-empty : (n : Net) → IsPacked n → n.queued_bytes ≡ 0 → n.queued ≡ []
queued-empty n v z = go (packets_in n.queued) v.laid
  where
    go : (ps : List (Header × ℕ)) → n.queued ≡ layout ps → n.queued ≡ []
    go [] e = e ∙ (unfold layout in refl)
    go (p ∷ ps) e = absurd (omega (arith, layout-le (p ∷ ps), z, v.bytes, ap size e))

reset_elements-same : (n : Net) → IsPacked n → reset_elements n ≡ n
reset_elements-same n v = elim (Bool-cases (n.queued_bytes == 0)) [
  | inl none_there ↦ rw none_there (
      ap (λ q. record n { queued = q })
        (sym (queued-empty n v ((==_iff n.queued_bytes 0).0 none_there))))
  | inr some_there ↦ rw some_there refl
]

queue_fits :
    (h : Header) (b : ℕ) (n : Net)
    → 0 < h.data_len
    → header_size + h.data_len ≤ max_packet_size
    → IsPacked n
    → let x : Bool × Net =
        if is_full h n
        then ((flush_bcast n).0, append_packet 0 h b (flush_bcast n).1)
        else (false, append_packet (padding n.queued_bytes) h b n) in
      IsPacked x.1 × (all_packets x.1 ≡ all_packets n ++ ((h, b) ∷ []))
queue_fits h b n one l v =
    let (v', gone, same) = flush_bcast-IsPacked n v in
    let m = (flush_bcast n).1 in
    let at : padding m.queued_bytes ≡ 0 = ap padding gone in
    let empty : length m.queued ≡ 0 = ap length (queued-empty m v' gone) in
    let two = v'.array in
    elim (Bool-cases (is_full h n)) [
      | inl full ↦
          let (w, e) =
            append_packet-IsPacked h b m one v' (omega (arith, gone, at, l))
              (rw at (omega (arith, empty, two))) in
          rw full (
            subst
              (λ k.
                IsPacked (append_packet k h b m)
                × (all_packets (append_packet k h b m) ≡ all_packets n ++ ((h, b) ∷ [])))
              at (w, e ∙ ap (λ xs. xs ++ ((h, b) ∷ [])) same))
      | inr fits ↦ rw fits (append_packet-IsPacked h b n one v (ground arith) (ground arith))
    ]

-- Where a packet has data and fits one of the network, and the datagram that waits is within
-- MAX_PACKET_SIZE and a scatter array of two places at least, its packets laid out with padding,
-- Net_queue_bcast keeps it so, keeps every datagram that goes out readable by Prot_handle_bcast as
-- the packets in it, and loses and reorders nothing: the packets sent and waiting are those from
-- before and then the new one.
pub queue_bcast-IsPacked :
    (h : Header) (b : ℕ) (n : Net)
    → 0 < h.data_len
    → header_size + h.data_len ≤ max_packet_size
    → IsPacked n
    → IsPacked (queue_bcast h b n).1
      × (all_packets (queue_bcast h b n).1 ≡ all_packets n ++ ((h, b) ∷ []))
unfolding queue_bcast
queue_bcast-IsPacked h b n one l v =
    subst
      (λ m.
        let x : Bool × Net =
          if is_full h m
          then ((flush_bcast m).0, append_packet 0 h b (flush_bcast m).1)
          else (false, append_packet (padding m.queued_bytes) h b m) in
        IsPacked x.1 × (all_packets x.1 ≡ all_packets n ++ ((h, b) ∷ [])))
      (sym (reset_elements-same n v)) (queue_fits h b n one l v)
