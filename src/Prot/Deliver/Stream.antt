-- ===== src/Prot/Deliver/Stream.antt =====
-- The packets of a ring in the order of their numbers, and what a daemon that has delivered them up
-- to a number has given to its sessions.
use in5020_distribuerte_syst.Prelude.{
  ℕ, zero, suc, ◌<◌, ◌≡◌, refl, sym, ap, ◌∙◌, Bool, true, false, ◌&&◌, ◌==◌, if◌then◌else◌, List,
  [], ◌∷◌, none, some, length, length-append, arith, Bool-cases, ℤ, pos, negsuc, ==_refl, inl, inr,
}
use in5020_distribuerte_syst.Prot.Store.{
  Store, Header, is_single, is_end, index_of, is_minus_one, has_bits, reliable_type,
}
use in5020_distribuerte_syst.Prot.Deliver.{parts, place_of, chained, chain, deliver_packet}

-- The packets that need order, the last one first.
unfoldable pub ordered : List Header → List Header
ordered [] = []
ordered (h ∷ hs) = if is_single h then ordered hs else h ∷ ordered hs

-- The packet with each number, and the index of the process that sent it.
pub record Ring : Type 0 where
  pub packet : ℕ → Header
  pub owner : ℕ → ℕ

-- How much of a message of a process has been sent with packet `n`.
unfoldable pub position : Ring → ℕ → ℕ → ℕ
position ring q zero = 0
position ring q (suc n) =
    let before = position ring q n in
    if is_single (ring.packet (suc n))
    then before
    else if ring.owner (suc n) == q
    then (if is_end (ring.packet (suc n)) then 0 else suc before)
    else before

-- The packets up to `n` that need order, the last one first.
unfoldable pub line : Ring → ℕ → List Header
line ring zero = []
line ring (suc n) =
    let before = line ring n in
    if is_single (ring.packet (suc n)) then before else ring.packet (suc n) ∷ before

-- Every process is one of the 128 and numbers the packets of each of its messages from 1.
pub record IsFramed (ring : Ring) : Type 0 where
  pub owners : (n : ℕ) → ring.owner n < 128
  pub frames :
      (n : ℕ)
      → is_single (ring.packet (suc n)) ≡ false
      → index_of (ring.packet (suc n)) ≡ suc (position ring (ring.owner (suc n)) n)

-- What has been delivered up to `n`: the packets that need order in that order, and the parts of
-- the messages that have no end yet.
pub record IsDelivered (ring : Ring) (n : ℕ) (s : Store) : Type 0 where
  pub in_line : ordered s.delivered ≡ line ring n
  pub in_parts : (q : ℕ) → q < 128 → length (parts (s.up_queue q)) ≡ position ring q n
  pub no_part : length (parts (s.up_queue 128)) ≡ 0

pub single_last : (h : Header) → is_single h ≡ true → (index_of h ≡ 1) × (is_end h ≡ true)
unfolding is_single index_of is_end
single_last h e = go h.packet_index (is_minus_of (has_bits h.kind reliable_type) h.packet_index e)
  where
    is_minus_of : (b : Bool) (z : ℤ) → (b && is_minus_one z) ≡ true → is_minus_one z ≡ true
    is_minus_of true z e = e
    is_minus_of false z e = cc

    go :
        (z : ℤ)
        → is_minus_one z ≡ true
        → (elim z [ pos n ↦ n | negsuc n ↦ suc n ] ≡ 1)
          × (elim z [ pos n ↦ false | negsuc n ↦ true ] ≡ true)
    go (pos n) e = cc
    go (negsuc n) e = (ground arith, refl)

length-chained :
    (e : ℕ) (s : Store) → length (chained e s) ≡ suc (length (parts (s.up_queue (place_of e s))))
unfolding chained
length-chained e s = length-append (parts (s.up_queue (place_of e s))) _ ∙ (omega arith)

-- What a delivery leaves of the messages that have no end.
parts-chain :
    (e : ℕ) (s : Store) (q : ℕ)
    → length (parts ((chain e s).up_queue q)) ≡ (
        if q == place_of e s
        then (if is_end (s.head e) then 0 else suc (length (parts (s.up_queue q))))
        else length (parts (s.up_queue q)))
unfolding chain
parts-chain e s q = go (q == place_of e s) (is_end (s.head e)) refl
  where
    go :
        (same end : Bool)
        → (q == place_of e s) ≡ same
        → length (parts (if same then (if end then none else some (chained e s)) else s.up_queue q))
          ≡ (if same
              then (if end then 0 else suc (length (parts (s.up_queue q))))
              else length (parts (s.up_queue q)))
    go true true e' = refl
    go true false e' =
        length-chained e s ∙ ap (λ k. suc (length (parts (s.up_queue k)))) (ground arith)
    go false end e' = refl

deliver_packet-fits :
    (e : ℕ) (s : Store)
    → index_of (s.head e) ≡ suc (length (parts (s.up_queue (place_of e s))))
    → deliver_packet e s ≡ some (chain e s)
unfolding deliver_packet
deliver_packet-fits e s h =
    let fits : (length (chained e s) == index_of (s.head e)) ≡ true =
      rw (h, length-chained e s) (==_refl _) in
    rw fits refl

place_single : (e : ℕ) (s : Store) → is_single (s.head e) ≡ true → place_of e s ≡ 128
unfolding place_of
place_single e s one = rw one refl

place_ordered : (e : ℕ) (s : Store) → is_single (s.head e) ≡ false → place_of e s ≡ s.proc_index e
unfolding place_of
place_ordered e s many = rw many refl

ordered-chain :
    (e : ℕ) (s : Store)
    → ordered (chain e s).delivered
      ≡ (if is_single (s.head e) then ordered s.delivered else s.head e ∷ ordered s.delivered)
unfolding chain ordered
ordered-chain e s = refl

-- A packet that needs no order may be delivered at any time.
pub chain_early :
    (ring : Ring) (n e : ℕ) (s : Store)
    → IsDelivered ring n s
    → is_single (s.head e) ≡ true
    → (deliver_packet e s ≡ some (chain e s)) × IsDelivered ring n (chain e s)
chain_early ring n e s d one =
    let (index, end) = single_last (s.head e) one in
    let at = place_single e s one in
    (
      deliver_packet-fits e s (rw (at, index) (ap suc (sym d.no_part))),
      record {
        in_line = ordered-chain e s ∙ rw one d.in_line;
        in_parts = λ q l. parts-chain e s q ∙ rw at (ground (arith, d.in_parts q l));
        no_part = parts-chain e s 128 ∙ rw (at, end) refl;
      },
    )

pub skip_single :
    (ring : Ring) (n : ℕ) (s : Store)
    → IsDelivered ring n s
    → is_single (ring.packet (suc n)) ≡ true
    → IsDelivered ring (suc n) s
unfolding line position
skip_single ring n s d one = record {
  in_line = rw one d.in_line;
  in_parts = λ q l. rw one (d.in_parts q l);
  no_part = d.no_part;
}

-- The next packet of the ring is never out of its place.
pub chain_next :
    (ring : Ring) (n e : ℕ) (s : Store)
    → IsFramed ring
    → IsDelivered ring n s
    → s.head e ≡ ring.packet (suc n)
    → s.proc_index e ≡ ring.owner (suc n)
    → (deliver_packet e s ≡ some (chain e s)) × IsDelivered ring (suc n) (chain e s)
unfolding line position
chain_next ring n e s f d same own = elim (Bool-cases (is_single (ring.packet (suc n)))) [
  | inl one ↦
      let one' : is_single (s.head e) ≡ true = rw same one in
      let (done, d') = chain_early ring n e s d one' in
      (done, skip_single ring n (chain e s) d' one)
  | inr many ↦
      let many' : is_single (s.head e) ≡ false = rw same many in
      let at : place_of e s ≡ ring.owner (suc n) = place_ordered e s many' ∙ own in
      let l = f.owners (suc n) in
      (
        deliver_packet-fits e s
            (rw (at, same) (f.frames n many ∙ ap suc (sym (d.in_parts (ring.owner (suc n)) l)))),
        record {
          in_line =
              ordered-chain e s
              ∙ rw (many', same, many) (ap (λ hs. ring.packet (suc n) ∷ hs) d.in_line);
          in_parts =
              λ q l'. parts-chain e s q ∙ rw (at, same, many) (ground (arith, d.in_parts q l'));
          no_part = parts-chain e s 128 ∙ rw at (ground (arith, d.no_part));
        },
      )
]
