-- ===== src/Prot/Token/Requests.antt =====
-- daemon/protocol.c: which requests of a token `Answer_retrans` answers, and which end the program.
use in5020_distribuerte_syst.Prelude.{
  ℕ, suc, ◌+◌, ◌≤◌, ◌≡◌, refl, sym, ◌∙◌, ==_iff, ap, Bool, true, false, ◌||◌, ◌&&◌, ◌==◌, ltb,
  is_none, if◌then◌else◌, List, [], ◌∷◌, length, Option, none, some, ◌>>=◌, arith, Bool-cases, inl,
  inr,
}
use in5020_distribuerte_syst.Prot.Store.{Store, Net, RingRtr, MembershipId, pack_entry}
use in5020_distribuerte_syst.Prot.Net.{flush_bcast}
use in5020_distribuerte_syst.Prot.Send.{bit}
use in5020_distribuerte_syst.Prot.Token.{
  Answers, memb_is_equal, resend, is_own_seg, answer_seqs, answer_rings, answer_retrans,
}

unfoldable pub asks_below : ℕ → List ℕ → Bool
asks_below aru [] = false
asks_below aru (q ∷ qs) = ltb q aru || asks_below aru qs

-- Whether the token asks for a packet of this ring below the aru.
unfoldable pub asks_old : ℕ → MembershipId → List RingRtr → Bool
asks_old aru memb_id [] = false
asks_old aru memb_id (r ∷ rs) =
    (memb_is_equal r.memb_id memb_id && asks_below aru r.seqs) || asks_old aru memb_id rs

-- The requests of other rings, in order.
pub others : MembershipId → List RingRtr → List RingRtr
others memb_id [] = []
others memb_id (r ∷ rs) =
    let rest = others memb_id rs in if memb_is_equal r.memb_id memb_id then rest else r ∷ rest

-- The packets of this ring that are asked for.
pub asked_for : MembershipId → List RingRtr → ℕ
asked_for memb_id [] = 0
asked_for memb_id (r ∷ rs) =
    let rest = asked_for memb_id rs in
    if memb_is_equal r.memb_id memb_id then length r.seqs + rest else rest

-- An exit where the requests are too old, and else at most `most` more packets sent.
IsAnswered : (old : Bool) (before most : ℕ) → Option Answers → Type 0
IsAnswered old before most none = old ≡ true
IsAnswered old before most (some a) = (old ≡ false) × (a.num_retrans ≤ before + most)

bit-le : (b : Bool) → bit b ≤ 1
bit-le true = omega arith
bit-le false = omega arith

IsAnswered-more :
    (old : Bool) (before before' most : ℕ) (o : Option Answers)
    → before' ≤ before + 1
    → IsAnswered old before' most o
    → IsAnswered old before (suc most) o
unfolding IsAnswered
IsAnswered-more old before before' most none l h = h
IsAnswered-more old before before' most (some a) l (h, k) = (h, omega arith)

answer_seqs-IsAnswered :
    (s : Store) (my_seg : ℕ) (r : RingRtr) (qs : List ℕ) (a : Answers)
    → IsAnswered (asks_below s.aru qs) a.num_retrans (length qs) (answer_seqs s my_seg r qs a)
unfolding answer_seqs IsAnswered asks_below
answer_seqs-IsAnswered s my_seg r [] a = (refl, omega arith)
answer_seqs-IsAnswered s my_seg r (q ∷ qs) a =
    let x = resend r (s.head (pack_entry q)) (s.body (pack_entry q)) a.net in
    let sent : Answers = record a { num_retrans = a.num_retrans + bit x.0; net = x.1 } in
    let lost : Answers = record a {
      proc_id = none;
      seg_index = if is_own_seg r.seg_index my_seg then a.seg_index else none;
    } in
    elim (Bool-cases (ltb q s.aru)) [
      | inl old ↦ rw old refl
      | inr young ↦ elim (Bool-cases (s.exist (pack_entry q) == 0)) [
        | inl gone ↦
            rw (young, gone)
              (IsAnswered-more (asks_below s.aru qs) a.num_retrans a.num_retrans (length qs) _
                (omega arith) (answer_seqs-IsAnswered s my_seg r qs lost))
        | inr there ↦
            rw (young, there)
              (IsAnswered-more (asks_below s.aru qs) a.num_retrans sent.num_retrans (length qs) _
                (omega (arith, bit-le x.0)) (answer_seqs-IsAnswered s my_seg r qs sent))
      ]
    ]

-- The same for all parts of the token, with the parts that stay on it.
IsPassed :
    (old : Bool) (kept : List RingRtr) (before most : ℕ) → Option (List RingRtr × Answers) → Type 0
IsPassed old kept before most none = old ≡ true
IsPassed old kept before most (some x) =
    (old ≡ false) × (x.0 ≡ kept) × (x.1.num_retrans ≤ before + most)

IsPassed-cons :
    (r : RingRtr) (old : Bool) (kept : List RingRtr) (before most : ℕ)
    (o : Option (List RingRtr × Answers))
    → IsPassed old kept before most o
    → IsPassed old (r ∷ kept) before most (o >>= λ x. some (r ∷ x.0, x.1))
unfolding IsPassed
IsPassed-cons r old kept before most none h = h
IsPassed-cons r old kept before most (some x) (h, k, l) = (h, ap (λ ks. r ∷ ks) k, l)

IsPassed-more :
    (old : Bool) (kept : List RingRtr) (before before' more most : ℕ)
    (o : Option (List RingRtr × Answers))
    → before' ≤ before + more
    → IsPassed old kept before' most o
    → IsPassed old kept before (more + most) o
unfolding IsPassed
IsPassed-more old kept before before' more most none l h = h
IsPassed-more old kept before before' more most (some x) l (h, k, m) = (h, k, omega arith)

answer_rings-IsPassed :
    (s : Store) (memb_id : MembershipId) (my_seg : ℕ) (rs : List RingRtr) (a : Answers)
    → IsPassed
        (asks_old s.aru memb_id rs)
        (others memb_id rs)
        a.num_retrans
        (asked_for memb_id rs)
        (answer_rings s memb_id my_seg rs a)
unfolding answer_rings IsPassed IsAnswered asks_old others asked_for
answer_rings-IsPassed s memb_id my_seg [] a = (refl, refl, omega arith)
answer_rings-IsPassed s memb_id my_seg (r ∷ rs) a =
    elim (Bool-cases (memb_is_equal r.memb_id memb_id)) [
      | inr other ↦ rw other (
          IsPassed-cons r (asks_old s.aru memb_id rs) (others memb_id rs) a.num_retrans
            (asked_for memb_id rs) _ (answer_rings-IsPassed s memb_id my_seg rs a))
      | inl mine ↦ rw mine (
          go (answer_seqs s my_seg r r.seqs a) (answer_seqs-IsAnswered s my_seg r r.seqs a)
            (λ a'. answer_rings-IsPassed s memb_id my_seg rs a'))
    ]
  where
    go :
        (o : Option Answers)
        → IsAnswered (asks_below s.aru r.seqs) a.num_retrans (length r.seqs) o
        → ((a' : Answers)
            → IsPassed
                (asks_old s.aru memb_id rs)
                (others memb_id rs)
                a'.num_retrans
                (asked_for memb_id rs)
                (answer_rings s memb_id my_seg rs a'))
        → IsPassed
            (asks_below s.aru r.seqs || asks_old s.aru memb_id rs)
            (others memb_id rs)
            a.num_retrans
            (length r.seqs + asked_for memb_id rs)
            (o >>= λ a'. answer_rings s memb_id my_seg rs a')
    go none h rest = rw h refl
    go (some a') (h, l) rest = rw h (
        IsPassed-more (asks_old s.aru memb_id rs) (others memb_id rs) a.num_retrans a'.num_retrans
          (length r.seqs) (asked_for memb_id rs) _ l (rest a'))

-- `Answer_retrans` ends the program exactly if the token asks for a packet of this ring below `Aru`.
-- Else the requests of the other rings, in order, are what stays on the token, and it counts at most
-- one packet more than were asked for.
pub answer_retrans-IsPassed :
    (s : Store) (memb_id : MembershipId) (my_id my_seg : ℕ) (rs : List RingRtr)
    → (is_none (answer_retrans s memb_id my_id my_seg rs) ≡ asks_old s.aru memb_id rs)
      × ((x : List RingRtr × Answers)
          → answer_retrans s memb_id my_id my_seg rs ≡ some x
          → (x.0 ≡ others memb_id rs) × (x.1.num_retrans ≤ asked_for memb_id rs + 1))
unfolding answer_retrans IsPassed
answer_retrans-IsPassed s memb_id my_id my_seg rs =
    go (answer_rings s memb_id my_seg rs start) (answer_rings-IsPassed s memb_id my_seg rs start)
  where
    start : Answers
    start = record { num_retrans = 0; proc_id = some my_id; seg_index = some my_seg; net = s.net }

    last : List RingRtr × Answers → Option (List RingRtr × Answers)
    last x =
        let (sent, n) = flush_bcast x.1.net in
        some (x.0, record x.1 { num_retrans = x.1.num_retrans + bit sent; net = n })

    go :
        (o : Option (List RingRtr × Answers))
        → IsPassed (asks_old s.aru memb_id rs) (others memb_id rs) 0 (asked_for memb_id rs) o
        → (is_none (o >>= last) ≡ asks_old s.aru memb_id rs)
          × ((x : List RingRtr × Answers)
              → (o >>= last) ≡ some x
              → (x.0 ≡ others memb_id rs) × (x.1.num_retrans ≤ asked_for memb_id rs + 1))
    go none h = (rw h refl, (λ x e. cc))
    go (some y) (h, k, l) =
        (rw h refl, (λ x e. (cc, ground (arith, bit-le (flush_bcast y.1.net).0))))

quiet-flush : (n : Net) → (flush_bcast n).1.queued_bytes ≡ 0
unfolding flush_bcast
quiet-flush n = elim (Bool-cases (n.queued_bytes == 0)) [
  | inl empty ↦ rw empty ((==_iff n.queued_bytes 0).0 empty)
  | inr full ↦ rw full refl
]

-- Where no request is too old, `Answer_retrans` returns, and no datagram waits.
pub answer_retrans-quiet :
    (s : Store) (memb_id : MembershipId) (my_id my_seg : ℕ) (rs : List RingRtr)
    → asks_old s.aru memb_id rs ≡ false
    → (x : List RingRtr × Answers) × (answer_retrans s memb_id my_id my_seg rs ≡ some x)
      × (x.1.net.queued_bytes ≡ 0)
unfolding answer_retrans IsPassed
answer_retrans-quiet s memb_id my_id my_seg rs young =
    go (answer_rings s memb_id my_seg rs start) refl
      (answer_rings-IsPassed s memb_id my_seg rs start)
  where
    start : Answers
    start = record { num_retrans = 0; proc_id = some my_id; seg_index = some my_seg; net = s.net }

    go :
        (o : Option (List RingRtr × Answers))
        → answer_rings s memb_id my_seg rs start ≡ o
        → IsPassed (asks_old s.aru memb_id rs) (others memb_id rs) 0 (asked_for memb_id rs) o
        → (x : List RingRtr × Answers) × (answer_retrans s memb_id my_id my_seg rs ≡ some x)
          × (x.1.net.queued_bytes ≡ 0)
    go none e h = absurd (clash (sym h ∙ young))
      where
        clash : ◌≡◌ {A = Bool} true false → ⊥
        clash z = cc
    go (some y) e h = (
      (
        y.0,
        record y.1 {
          num_retrans = y.1.num_retrans + bit (flush_bcast y.1.net).0;
          net = (flush_bcast y.1.net).1;
        },
      ),
      rw e refl,
      quiet-flush y.1.net,
    )
