-- ===== src/Prot/Send/Extends.antt =====
-- daemon/protocol.c: the loop of `Send_new_packets` goes to its end, and goes on with the ring.
use in5020_distribuerte_syst.Prelude.{
  ℕ, zero, suc, ◌+◌, ◌-◌, ◌<◌, ◌≤◌, ◌≡◌, ◌⊎◌, refl, sym, ap, ◌∙◌, Bool, true, ◌==◌, ltb, List, [],
  ◌∷◌, Option, none, some, arith, Bool-cases, inl, inr,
}
use in5020_distribuerte_syst.Prot.Store.{Store, DownLink}
use in5020_distribuerte_syst.Prot.Net.{flush_bcast}
use in5020_distribuerte_syst.Prot.Deliver.Stream.{Ring, IsFramed, position}
use in5020_distribuerte_syst.Prot.Deliver.Order.{IsSound}
use in5020_distribuerte_syst.Prot.Deliver.Extend.{framed_in-IsSound}
use in5020_distribuerte_syst.Prot.Send.{Sender, down, bit, send_from, waiting, send_new_packets}
use in5020_distribuerte_syst.Prot.Send.Whole.{next_queue, next_queue-IsWhole, IsWhole, remaining}
use in5020_distribuerte_syst.Prot.Send.Ordered.{Extends}
use in5020_distribuerte_syst.Prot.Send.Packet.{
  pending, pending-le, flush-pending, Extends-refl, Extends-trans, send_packet-Extends,
}

-- What the loop of `Send_new_packets` comes to: all that is allowed is sent, or the queue is empty, and
-- there are no more datagrams than new packets.
Ends : (ring : Ring) (index num_sent num_allowed : ℕ) → Store → Option (ℕ × Store) → Type 0
Ends ring index num_sent num_allowed s none = ⊥
Ends ring index num_sent num_allowed s (some x) =
    Extends ring index s x.1
    × (x.0 + pending x.1.net + s.highest_seq ≤ num_sent + pending s.net + x.1.highest_seq)
    × ((num_allowed ≤ x.0) ⊎ ((down x.1).links ≡ []))

Ends-step :
    (ring : Ring) (index num_sent num_allowed : ℕ) (s : Store) (y : Bool × Store)
    (x : Extends ring index s y.1) (o : Option (ℕ × Store))
    → y.1.highest_seq ≡ suc s.highest_seq
    → bit y.0 ≤ pending s.net
    → Ends x.on index (num_sent + bit y.0) num_allowed y.1 o
    → Ends ring index num_sent num_allowed s o
unfolding Ends
Ends-step ring index num_sent num_allowed s y x none e l h = h
Ends-step ring index num_sent num_allowed s y x (some z) e l (h, k, m) =
    (Extends-trans ring index s y.1 z.1 x h, omega (arith, pending-le y.1.net, pending-le s.net), m)

send_from-Ends :
    (fuel : ℕ) (ring : Ring) (me : Sender) (num_sent num_allowed : ℕ) (s : Store)
    (links : List DownLink) (cur : ℕ)
    → IsFramed ring
    → me.index < 128
    → IsSound ring s
    → down s ≡ record { links = links; cur_element = cur }
    → IsWhole (record { links = links; cur_element = cur })
    → position ring me.index s.highest_seq ≡ cur
    → waiting links - cur < fuel
    → s.highest_seq + (waiting links - cur) ≤ s.last_discarded + 8192
    → Ends ring me.index num_sent num_allowed s (send_from fuel me num_sent num_allowed s)
unfolding send_from Ends IsWhole remaining waiting
send_from-Ends zero ring me num_sent num_allowed s links cur f i v e w at l m =
    absurd (omega (arith, l))
send_from-Ends (suc fuel) ring me num_sent num_allowed s [] cur f i v e w at l m =
    let none_left : (down s).links ≡ [] = ap (λ q. q.links) e in
    let stays = Extends-refl ring me.index s f v (at ∙ sym (ap (λ q. q.cur_element) e)) in
    elim (Bool-cases (ltb num_sent num_allowed)) [
      | inl more ↦ rw (more, none_left) (stays, omega arith, inr none_left)
      | inr all ↦ rw all (stays, omega arith, inl (ground arith))
    ]
send_from-Ends (suc fuel) ring me num_sent num_allowed s (k ∷ rest) cur f i v e (few, whole) at l
      m =
    let links_are : (down s).links ≡ k ∷ rest = ap (λ q. q.links) e in
    let cur_is : (down s).cur_element ≡ cur = ap (λ q. q.cur_element) e in
    let at' = at ∙ sym cur_is in
    let (y, sent, x, queue, high, ret) =
      send_packet-Extends ring me k rest s f i v (omega (arith, cur_is, few)) at'
        (omega (arith, few, m)) in
    let (w', less) = next_queue-IsWhole k rest cur few whole in
    let q = next_queue k rest (suc cur) in
    let queue' : down y.1 ≡ q = queue ∙ ap (λ c. next_queue k rest (suc c)) cur_is in
    elim (Bool-cases (ltb num_sent num_allowed)) [
      | inl more ↦
          rw (more, links_are, sent)
            (Ends-step ring me.index num_sent num_allowed s y x _ high ret (
              send_from-Ends fuel x.on me (num_sent + bit y.0) num_allowed y.1 q.links q.cur_element
                x.framed i x.sound queue' w' (x.turn ∙ ap (λ z. z.cur_element) queue')
                (omega (arith, less, l)) (omega (arith, less, m, high, x.low))))
      | inr all ↦ rw all (Extends-refl ring me.index s f v at', omega arith, inl (ground arith))
    ]

-- From a sound state of the packets outside which no datagram waits, where each message that waits
-- has an element that is not sent, the process is at its place in the ring, and there is room for
-- what waits, Send_new_packets returns, within its fuel, and has sent as many datagrams as it is
-- allowed, and no more than there are new packets, or leaves the queue empty; the new packets go on
-- with the ring, framed, and the state of the packets keeps to it.
pub send_new_packets-Extends :
    (ring : Ring) (me : Sender) (num_allowed : ℕ) (s : Store)
    → IsFramed ring
    → me.index < 128
    → IsSound ring s
    → s.net.queued_bytes ≡ 0
    → IsWhole (down s)
    → position ring me.index s.highest_seq ≡ (down s).cur_element
    → s.highest_seq + remaining (down s) ≤ s.last_discarded + 8192
    → (x : ℕ × Store) × (send_new_packets me num_allowed s ≡ some x)
      × Extends ring me.index s x.1
      × (x.0 + s.highest_seq ≤ x.1.highest_seq)
      × ((num_allowed ≤ x.0) ⊎ ((down x.1).links ≡ []))
unfolding send_new_packets Ends remaining pending
send_new_packets-Extends ring me num_allowed s f i v quiet w at m =
    go (send_from (suc (waiting (down s).links)) me 0 num_allowed s) refl (
      send_from-Ends (suc (waiting (down s).links)) ring me 0 num_allowed s (down s).links
        (down s).cur_element f i v refl w at (omega arith) m)
  where
    go :
        (o : Option (ℕ × Store))
        → send_from (suc (waiting (down s).links)) me 0 num_allowed s ≡ o
        → Ends ring me.index 0 num_allowed s o
        → (x : ℕ × Store) × (send_new_packets me num_allowed s ≡ some x)
          × Extends ring me.index s x.1
          × (x.0 + s.highest_seq ≤ x.1.highest_seq)
          × ((num_allowed ≤ x.0) ⊎ ((down x.1).links ≡ []))
    go none e h = absurd h
    go (some (n, t)) e (x, k, h) =
        let y = record t { net = (flush_bcast t.net).1 } in
        let nothing : (s.net.queued_bytes == 0) ≡ true = rw quiet refl in
        let empty : pending s.net ≡ 0 = unfold pending in (rw nothing refl) in
        (
          (n + bit (flush_bcast t.net).0, y),
          rw e refl,
          record {
            on = x.on;
            framed = x.framed;
            agrees = x.agrees;
            sound = framed_in-IsSound x.on t y x.sound;
            turn = x.turn;
            grows = x.grows;
            low = x.low;
            mine = x.mine;
            same_aru = x.same_aru;
          },
          omega (arith, k, empty, flush-pending t.net),
          more h,
        )
      where
        more :
            (num_allowed ≤ n) ⊎ ((down t).links ≡ [])
            → (num_allowed ≤ n + bit (flush_bcast t.net).0) ⊎ ((down t).links ≡ [])
        more (inl l) = inl (omega (arith, l))
        more (inr l) = inr l
