-- ===== src/Prot/Deliver/Extend.antt =====
-- daemon/protocol.c: a ring that goes on with a new packet, and stores with the same packets.
use in5020_distribuerte_syst.Prelude.{
  ℕ, zero, suc, ◌<◌, ◌≤◌, ◌≡◌, refl, sym, ap, ◌∙◌, subst, Bool, true, false, ◌==◌, ==_refl, ltb,
  if◌then◌else◌, arith, negsuc,
}
use in5020_distribuerte_syst.Prot.Store.{Store, Header, is_single, index_of}
use in5020_distribuerte_syst.Prot.Deliver.Stream.{Ring, IsFramed, position, line}
use in5020_distribuerte_syst.Prot.Deliver.Order.{IsSound}

-- The packets of the one store, and the rest of the other.
abbrev pub framed_in : Store → Store → Store
framed_in s t = record t {
  exist = s.exist;
  head = s.head;
  proc_index = s.proc_index;
  up_queue = s.up_queue;
  my_aru = s.my_aru;
  highest_seq = s.highest_seq;
  last_discarded = s.last_discarded;
  last_delivered = s.last_delivered;
  delivered = s.delivered;
}

pub framed_in-IsSound : (ring : Ring) (s t : Store) → IsSound ring s → IsSound ring (framed_in s t)
framed_in-IsSound ring s t v = record {
  behind = v.behind;
  ahead = v.ahead;
  top = v.top;
  room = v.room;
  flags = v.flags;
  stored = v.stored;
  held = v.held;
  done = v.done;
  early = v.early;
  stream = record {
    in_line = v.stream.in_line;
    in_parts = v.stream.in_parts;
    no_part = v.stream.no_part;
  };
}

-- Two rings with the same packets up to `n`.
pub Agrees : ℕ → Ring → Ring → Type 0
Agrees n r r' = (k : ℕ) → k ≤ n → (r'.packet k ≡ r.packet k) × (r'.owner k ≡ r.owner k)

pub Agrees-refl : (n : ℕ) (r : Ring) → Agrees n r r
unfolding Agrees
Agrees-refl n r k l = (refl, refl)

pub Agrees-trans :
    (m n : ℕ) (r r' r'' : Ring) → m ≤ n → Agrees m r r' → Agrees n r' r'' → Agrees m r r''
unfolding Agrees
Agrees-trans m n r r' r'' l a b k h =
    let (p, o) = a k h in let (p', o') = b k (omega arith) in (p' ∙ p, o' ∙ o)

module _ (n : ℕ) (r r' : Ring) (a : Agrees n r r') where
  pub position-Agrees : (q k : ℕ) → k ≤ n → position r' q k ≡ position r q k
  unfolding position Agrees
  position-Agrees q zero l = refl
  position-Agrees q (suc k) l =
      let (p, o) = a (suc k) l in rw (p, o, position-Agrees q k (omega arith)) refl

  line-Agrees : (k : ℕ) → k ≤ n → line r' k ≡ line r k
  unfolding line Agrees
  line-Agrees zero l = refl
  line-Agrees (suc k) l = let (p, o) = a (suc k) l in rw (p, line-Agrees k (omega arith)) refl

  -- What is known of the packets says nothing of those behind the highest one.
  pub IsSound-Agrees : (s : Store) → s.highest_seq ≤ n → IsSound r s → IsSound r' s
  unfolding Agrees
  IsSound-Agrees s l v =
      let t = v.top in
      let h = v.ahead in
      let b = v.behind in
      record {
        behind = v.behind;
        ahead = v.ahead;
        top = v.top;
        room = v.room;
        flags = v.flags;
        stored = λ i lo hi ne.
            let (m, p, o) = v.stored i lo hi ne in
            let (p', o') = a i (omega arith) in (m, p ∙ sym p', o ∙ sym o');
        held = v.held;
        done = v.done;
        early = λ i lo hi two.
            let (m, p, o) = v.stored i (omega arith) hi (λ z. absurd (omega (arith, z, two))) in
            let (p', o') = a i (omega arith) in
            subst (λ x. is_single x ≡ true) (sym p') (v.early i lo hi two);
        stream = record {
          in_line = v.stream.in_line ∙ sym (line-Agrees s.last_delivered (omega arith));
          in_parts =
              λ q m. v.stream.in_parts q m ∙ sym (position-Agrees q s.last_delivered (omega arith));
          no_part = v.stream.no_part;
        };
      }

-- The place of a packet that was not sent yet; it asks nothing of the order.
abbrev blank : Header → Header
blank h = record h { kind = 2; packet_index = negsuc 0 }

blank_single : (h : Header) → is_single (blank h) ≡ true
unfolding is_single
blank_single h = refl

-- The ring whose last packet is `h`, number `n`, of the process `o`.
pub extend : ℕ → Header → ℕ → Ring → Ring
extend n h o r = record {
  packet = λ k. if ltb k n then r.packet k else if k == n then h else blank h;
  owner = λ k. if k == n then o else r.owner k;
}

pub extend_last :
    (n : ℕ) (h : Header) (o : ℕ) (r : Ring)
    → ((extend n h o r).packet n ≡ h) × ((extend n h o r).owner n ≡ o)
unfolding extend
extend_last n h o r =
    let same = ==_refl n in
    let not_below : ltb n n ≡ false = ground arith in (rw (not_below, same) refl, rw same refl)

pub extend-Agrees : (n : ℕ) (h : Header) (o : ℕ) (r : Ring) → Agrees n r (extend (suc n) h o r)
unfolding extend Agrees
extend-Agrees n h o r k l =
    let below : ltb k (suc n) ≡ true = ground arith in
    let other : (k == suc n) ≡ false = ground arith in (rw below refl, rw other refl)

-- A packet with the next index of its process makes a framed ring of a framed ring.
pub extend-IsFramed :
    (n : ℕ) (h : Header) (o : ℕ) (r : Ring)
    → IsFramed r
    → o < 128
    → (is_single h ≡ false → index_of h ≡ suc (position r o n))
    → IsFramed (extend (suc n) h o r)
unfolding Agrees
extend-IsFramed n h o r f l next = record {
  owners = λ k. own k (k == suc n) refl;
  frames = λ k many. frame k many (ltb k n) (k == n) refl refl;
}
  where
    r' : Ring
    r' = extend (suc n) h o r

    own : (k : ℕ) (b : Bool) → (k == suc n) ≡ b → (extend (suc n) h o r).owner k < 128
    own k true e =
        let at : k ≡ suc n = ground arith in
        subst (λ j. (extend (suc n) h o r).owner j < 128) (sym at)
          (subst (λ x. x < 128) (sym (extend_last (suc n) h o r).1) l)
    own k false e = unfold extend in (rw e (f.owners k))

    behind : (k : ℕ) → n < k → (extend (suc n) h o r).packet (suc k) ≡ blank h
    behind k m =
        unfold extend in
        (let not_below : ltb (suc k) (suc n) ≡ false = ground arith in
          let other : (suc k == suc n) ≡ false = ground arith in rw (not_below, other) refl)

    frame :
        (k : ℕ)
        → is_single (r'.packet (suc k)) ≡ false
        → (low at : Bool) → ltb k n ≡ low
        → (k == n) ≡ at
        → index_of (r'.packet (suc k)) ≡ suc (position r' (r'.owner (suc k)) k)
    frame k many true at e e' =
        let a = extend-Agrees n h o r in
        let (p, w) = a (suc k) (ground arith) in
        ap index_of p
        ∙ f.frames k (subst (λ x. is_single x ≡ false) p many)
        ∙ ap suc (
            sym (position-Agrees n r r' a (r.owner (suc k)) k (ground arith))
            ∙ ap (λ x. position r' x k) (sym w))
    frame k many false true e e' =
        let same : k ≡ n = ground arith in
        let (p, w) = extend_last (suc n) h o r in
        subst (λ j. index_of (r'.packet (suc j)) ≡ suc (position r' (r'.owner (suc j)) j))
          (sym same)
          (ap index_of p
            ∙ next (subst (λ x. is_single x ≡ false) (ap (λ j. r'.packet (suc j)) same ∙ p) many)
            ∙ ap suc (
                sym (position-Agrees n r r' (extend-Agrees n h o r) o n (omega arith))
                ∙ ap (λ x. position r' x n) (sym w)))
    frame k many false false e e' =
        absurd (clash (sym (blank_single h) ∙ ap is_single (sym (behind k (ground arith))) ∙ many))
      where
        clash : ◌≡◌ {A = Bool} true false → ⊥
        clash z = cc
