-- ===== src/Prot/Send/Ordered.antt =====
-- daemon/protocol.c: the packets that `Send_new_packets` numbers go on with the ring.
use in5020_distribuerte_syst.Prelude.{
  ℕ, suc, ◌+◌, ◌<◌, ◌≤◌, ◌≡◌, refl, ap, ◌∙◌, subst, Bool, true, false, not, ◌==◌, ==_refl, ==_iff,
  ltb, if◌then◌else◌, List, ◌∷◌, length, arith, Bool-cases, inl, inr,
}
use in5020_distribuerte_syst.Prot.Store.{
  Store, Header, Element, DownLink, DownQueue, put, pack_entry, is_single, is_end, index_of,
}
use in5020_distribuerte_syst.Prot.Deliver.Stream.{Ring, IsFramed, position, single_last}
use in5020_distribuerte_syst.Prot.Deliver.Order.{IsSound}
use in5020_distribuerte_syst.Prot.Deliver.Extend.{
  framed_in-IsSound, Agrees, position-Agrees, extend, extend_last, extend-Agrees,
}
use in5020_distribuerte_syst.Prot.Receive.{place_packet}
use in5020_distribuerte_syst.Prot.Receive.Insert.{place_packet-IsSound}
use in5020_distribuerte_syst.Prot.Send.{
  Sender, down, set_down, water_mark, new_header, pass_element, keep_packet,
}
use in5020_distribuerte_syst.Prot.Send.Whole.{next_queue}

-- What the queue changes of the store.
pub pass_element-same :
    (l : DownLink) (rest : List DownLink) (cur : ℕ) (s : Store)
    → (t : ℕ) × (pass_element l rest cur s ≡ record s {
      down_queue = put s.down_queue s.down_type (next_queue l rest cur);
      protocol_threshold = t;
    })
unfolding pass_element
pass_element-same l rest cur s =
    go (ltb cur (length l.mess)) (ltb (length rest) water_mark) (ltb 0 s.protocol_threshold)
  where
    more : DownQueue
    more = record { links = l ∷ rest; cur_element = cur }

    last : DownQueue
    last = record { links = rest; cur_element = 0 }

    go :
        (b c d : Bool)
        → (t : ℕ) × ((if b
              then set_down more s
              else (if c
                  then (if d
                      then record (set_down last s) { protocol_threshold = 0 }
                      else set_down last s)
                  else set_down last s))
            ≡ record s {
              down_queue = put s.down_queue s.down_type (if b then more else last);
              protocol_threshold = t;
            })
    go true c d = (s.protocol_threshold, refl)
    go false true true = (0, refl)
    go false true false = (s.protocol_threshold, refl)
    go false false d = (s.protocol_threshold, refl)

-- The index of a new packet counts the packets of its message; the last one ends it.
pub header_index :
    (me : Sender) (l : DownLink) (el : Element) (c : ℕ) (s : Store)
    → c < length l.mess
    → index_of (new_header me l el (suc c) s) ≡ suc c
unfolding index_of
header_index me l el c s few = elim (Bool-cases (ltb (suc c) (length l.mess))) [
  | inl more ↦ rw more refl
  | inr last ↦ rw last (ground arith)
]

pub header_end :
    (me : Sender) (l : DownLink) (el : Element) (c : ℕ) (s : Store)
    → is_end (new_header me l el (suc c) s) ≡ not (ltb (suc c) (length l.mess))
unfolding is_end
header_end me l el c s = elim (Bool-cases (ltb (suc c) (length l.mess))) [
  | inl more ↦ rw more refl
  | inr last ↦ rw last refl
]

pub next_cur :
    (l : DownLink) (rest : List DownLink) (c : ℕ)
    → (next_queue l rest (suc c)).cur_element ≡ (if ltb (suc c) (length l.mess) then suc c else 0)
next_cur l rest c = elim (Bool-cases (ltb (suc c) (length l.mess))) [
  | inl more ↦ rw more refl
  | inr last ↦ rw last refl
]

-- The place of the process in its message, behind the new packet.
pub position-extend :
    (ring : Ring) (n o c : ℕ) (h : Header) (more : Bool)
    → position ring o n ≡ c
    → index_of h ≡ suc c
    → is_end h ≡ not more
    → position (extend (suc n) h o ring) o (suc n) ≡ (if more then suc c else 0)
unfolding position
position-extend ring n o c h more at index end =
    let (p, w) = extend_last (suc n) h o ring in
    let before =
      position-Agrees n ring (extend (suc n) h o ring) (extend-Agrees n h o ring) o n (omega arith)
      ∙ at in
    elim (Bool-cases (is_single h)) [
      | inl one ↦
          let (first, ends) = single_last h one in
          let zero_at : c ≡ 0 = omega (arith, first, index) in
          let no_more : more ≡ false = ground (arith, end, ends) in
          rw (p, one, no_more) (before ∙ zero_at)
      | inr many ↦ rw (p, w, many, end, ==_refl o, before) (go more)
    ]
  where
    go : (b : Bool) → (if not b then 0 else suc c) ≡ (if b then suc c else 0)
    go true = refl
    go false = refl

-- The ring goes on, and the store keeps to it; the process is at the next element of its message.
pub record Extends (ring : Ring) (index : ℕ) (s t : Store) : Type 0 where
  pub on : Ring
  pub framed : IsFramed on
  pub agrees : Agrees s.highest_seq ring on
  pub sound : IsSound on t
  pub turn : position on index t.highest_seq ≡ (down t).cur_element
  pub grows : s.highest_seq ≤ t.highest_seq
  pub low : t.last_discarded ≡ s.last_discarded
  pub mine : t.my_aru ≡ s.my_aru
  pub same_aru : t.aru ≡ s.aru

-- An entry behind the highest number is free.
pub next_free :
    (ring : Ring) (s : Store)
    → IsSound ring s
    → s.highest_seq < s.last_discarded + 8192
    → s.exist (pack_entry (suc s.highest_seq)) ≡ 0
next_free ring s v room =
    let b = v.behind in
    let a = v.ahead in
    let t = v.top in
    elim (Bool-cases (s.exist (pack_entry (suc s.highest_seq)) == 0)) [
      | inl free ↦ (==_iff _ 0).0 free
      | inr there ↦
          let (m, p, o) =
            v.stored (suc s.highest_seq) (omega arith) (omega arith) (λ z. absurd (ground arith)) in
          absurd (omega (arith, m))
    ]

pub keep_packet-IsSound :
    (ring : Ring) (me : Sender) (h : Header) (buf : ℕ) (q : ℕ → DownQueue) (k : ℕ) (s : Store)
    → IsSound ring s
    → h.seq ≡ suc s.highest_seq
    → s.highest_seq < s.last_discarded + 8192
    → h ≡ ring.packet h.seq
    → me.index ≡ ring.owner h.seq
    → IsSound ring (keep_packet me h buf (record s { down_queue = q; protocol_threshold = k }))
unfolding keep_packet place_packet
keep_packet-IsSound ring me h buf q k s v at room same own =
    let placed = place_packet me.index h buf s in
    let b = v.behind in
    let a = v.ahead in
    let t = v.top in
    let free : s.exist (pack_entry h.seq) ≡ 0 =
      ap (λ n. s.exist (pack_entry n)) at ∙ next_free ring s v room in
    let v' =
      place_packet-IsSound ring me.index h buf s v (omega arith) (omega arith) free same own in
    let high : placed.highest_seq ≡ h.seq = ground arith in
    framed_in-IsSound ring (record placed { highest_seq = h.seq })
      (keep_packet me h buf (record s { down_queue = q; protocol_threshold = k }))
      (subst (λ n. IsSound ring (record placed { highest_seq = n })) high v')
