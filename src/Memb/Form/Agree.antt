-- ===== src/Memb/Form/Agree.antt =====
-- daemon/membership.c: the packets that `Read_form2` gives up.
use in5020_distribuerte_syst.Prelude.{
  ℕ, ◌+◌, ◌≡◌, ◌≤◌, ◌<◌, refl, ap, ◌∙◌, Bool, true, false, not, ◌==◌, ==_iff, ==_refl,
  if◌then◌else◌, Bool-cases, inl, inr, List, [], ◌∷◌, some, arith,
}
use in5020_distribuerte_syst.Prot.Store.{Store, pack_entry, put}
use in5020_distribuerte_syst.Prot.Deliver.Stream.{Ring, IsFramed}
use in5020_distribuerte_syst.Prot.Deliver.Order.{IsSound, pack_entry-inj, put_cases}
use in5020_distribuerte_syst.Memb.Members.Insert.{contains, IsDistinct}
use in5020_distribuerte_syst.Memb.Form.Read.{make_dummies, agree}
use in5020_distribuerte_syst.Memb.Form.Told.{IsTold, has_packet}
use in5020_distribuerte_syst.Memb.Rings.{RingInfo}
use in5020_distribuerte_syst.Prot.Deliver.Extend.{framed_in-IsSound}
use in5020_distribuerte_syst.Prot.Deliver.Discard.{discard_old-IsSound}
use in5020_distribuerte_syst.Prot.Deliver.Empty.{discard_old-empty}

-- Each number is behind `low`, in the window.
pub AllIn : ℕ → List ℕ → Type 0
AllIn low [] = Unit
AllIn low (q ∷ qs) = (low < q) × (q ≤ low + 8192) × AllIn low qs

-- The entries of the numbers are empty.
AllEmpty : (ℕ → ℕ) → List ℕ → Type 0
AllEmpty exist [] = Unit
AllEmpty exist (q ∷ qs) = (exist (pack_entry q) ≡ 0) × AllEmpty exist qs

AllEmpty-put :
    (low q : ℕ) (qs : List ℕ) (exist : ℕ → ℕ)
    → low < q
    → q ≤ low + 8192
    → AllIn low qs
    → contains qs q ≡ false
    → AllEmpty exist qs
    → AllEmpty (put exist (pack_entry q) 3) qs
unfolding AllIn AllEmpty
AllEmpty-put low q [] exist l m a new e = tt
AllEmpty-put low q (x ∷ xs) exist l m (la, ma, a) new (z, e) = (
  elim (put_cases exist (pack_entry q) 3 (pack_entry x)) [
    | inl (same, p) ↦ absurd (ground (arith, new, pack_entry-inj low x q la ma l m same))
    | inr (other, p) ↦ p ∙ z
  ],
  AllEmpty-put low q xs exist l m a (ground (arith, new)) e,
)

-- Every hole becomes a dummy, and no other entry.
make_dummies-All :
    (low : ℕ) (qs : List ℕ) (exist : ℕ → ℕ)
    → AllIn low qs
    → IsDistinct qs
    → AllEmpty exist qs
    → (exist' : ℕ → ℕ) × (make_dummies qs exist ≡ some exist')
      × ((q : ℕ)
          → low < q
          → q ≤ low + 8192
          → exist' (pack_entry q) ≡ (if contains qs q then 3 else exist (pack_entry q)))
unfolding make_dummies AllIn AllEmpty
make_dummies-All low [] exist a d e = (exist, refl, λ q l m. refl)
make_dummies-All low (x ∷ xs) exist (l, m, a) (new, d) (z, e) =
    let (exist', made, all) =
      make_dummies-All low xs (put exist (pack_entry x) 3) a d
        (AllEmpty-put low x xs exist l m a new e) in
    let empty : (exist (pack_entry x) == 0) ≡ true = rw z refl in
    (exist', rw empty made, λ q lq mq. all q lq mq ∙ go q lq mq)
  where
    go :
        (q : ℕ)
        → low < q
        → q ≤ low + 8192
        → (if contains xs q then 3 else put exist (pack_entry x) 3 (pack_entry q))
          ≡ (if contains (x ∷ xs) q then 3 else exist (pack_entry q))
    go q lq mq = elim (put_cases exist (pack_entry x) 3 (pack_entry q)) [
      | inl (same, p) ↦ ground (arith, p, pack_entry-inj low q x lq mq l m same)
      | inr (other, p) ↦ ground (arith, p, other, ap (λ j. pack_entry j))
    ]

-- What all daemons of the ring have told, as Read_form2 gets it: this daemon is among them, and the holes
-- are distinct numbers behind the aru.
pub record IsAgreed (have : ℕ → Bool) (r : RingInfo) (s : Store) : Type 0 where
  pub told : IsTold have r
  pub mine : (q : ℕ) → has_packet s q ≡ true → have q ≡ true
  pub distinct : IsDistinct r.holes
  pub behind : (q : ℕ) → contains r.holes q ≡ true → (r.aru < q) × (q ≤ r.highest_seq)
  pub past : s.last_discarded ≤ r.aru
  pub low : r.aru ≤ s.my_aru
  pub high : s.highest_seq ≤ r.highest_seq
  pub room : r.highest_seq ≤ s.last_discarded + 8192

-- A state that knows of a later packet.
pub top-IsSound :
    (ring : Ring) (n : ℕ) (s : Store)
    → s.highest_seq ≤ n
    → n ≤ s.last_discarded + 8192
    → IsSound ring s
    → IsSound ring (record s { highest_seq = n })
top-IsSound ring n s l m v =
    let t = v.top in
    record {
      behind = v.behind;
      ahead = v.ahead;
      top = omega arith;
      room = m;
      flags = v.flags;
      stored = λ i lo hi ne. let (h, p, o) = v.stored i lo hi ne in (omega arith, p, o);
      held = v.held;
      done = v.done;
      early = v.early;
      stream = record {
        in_line = v.stream.in_line;
        in_parts = v.stream.in_parts;
        no_part = v.stream.no_part;
      };
    }

-- A packet in the window that the daemon does not have has an empty entry.
not_there :
    (ring : Ring) (s : Store) (q : ℕ)
    → IsSound ring s
    → s.last_discarded < q
    → q ≤ s.last_discarded + 8192
    → has_packet s q ≡ false
    → s.exist (pack_entry q) ≡ 0
not_there ring s q v l m h = elim (Bool-cases (s.exist (pack_entry q) == 0)) [
  | inl empty ↦ (==_iff (s.exist (pack_entry q)) 0).0 empty
  | inr used ↦
      let (top, p, o) = v.stored q l m (λ z. ground (arith, used, z)) in
      absurd (ground (arith, h, used, top))
]

all_in :
    (low high : ℕ) (qs : List ℕ)
    → high ≤ low + 8192
    → ((q : ℕ) → contains qs q ≡ true → (low < q) × (q ≤ high))
    → AllIn low qs
unfolding AllIn
all_in low high [] m h = tt
all_in low high (x ∷ xs) m h =
    let (l, k) = h x (rw (==_refl x) refl) in
    (l, omega (arith, k, m), all_in low high xs m (λ q c. h q (ground (arith, c))))

all_empty :
    (exist : ℕ → ℕ) (qs : List ℕ)
    → ((q : ℕ) → contains qs q ≡ true → exist (pack_entry q) ≡ 0)
    → AllEmpty exist qs
unfolding AllEmpty
all_empty exist [] h = tt
all_empty exist (x ∷ xs) h =
    (h x (rw (==_refl x) refl), all_empty exist xs (λ q c. h q (ground (arith, c))))

-- From a sound state of the packets, where the daemons of the ring have told what they have, this
-- one among them, the holes are distinct numbers behind the aru, which is not above its own My_aru
-- nor below what it discarded, and there is room for the highest number they know: Read_form2
-- discards and makes dummies without an exit, takes over the aru and the highest number, and of the
-- numbers between them exactly those are dummies then that no daemon has.
pub agree-IsAgreed :
    (ring : Ring) (have : ℕ → Bool) (r : RingInfo) (s : Store)
    → IsFramed ring
    → IsSound ring s
    → IsAgreed have r s
    → (t : Store) × (agree r s ≡ some t)
      × (t.aru ≡ r.aru)
      × (t.highest_seq ≡ r.highest_seq)
      × ((q : ℕ) → r.aru < q → q ≤ r.highest_seq → (t.exist (pack_entry q) == 3) ≡ not (have q))
unfolding agree
agree-IsAgreed ring have r s f v a =
    let raised = record s { highest_seq = r.highest_seq; aru = r.aru } in
    let w =
      framed_in-IsSound ring (record s { highest_seq = r.highest_seq }) raised
        (top-IsSound ring r.highest_seq s a.high a.room v) in
    let (d, e, x, aru, mine, high, low) = discard_old-IsSound ring f raised a.low w in
    let empty : (q : ℕ) → contains r.holes q ≡ true → d.exist (pack_entry q) ≡ 0 =
      λ q c. discard_old-empty (pack_entry q) raised d e (missing q c) in
    let (exist', made, all) =
      make_dummies-All s.last_discarded r.holes d.exist
        (all_in s.last_discarded r.highest_seq r.holes a.room
          (λ q c. let (l, m) = a.behind q c in (omega (arith, l, a.past), m)))
        a.distinct (all_empty d.exist r.holes empty) in
    (
      record d { exist = exist' },
      rw (e, made) refl,
      aru,
      high,
      λ q l m.
          ap (λ n. n == 3) (all q (omega (arith, l, a.past)) (omega (arith, m, a.room)))
          ∙ dummy (contains r.holes q) (d.exist (pack_entry q)) (x.flags (pack_entry q))
          ∙ a.told.told q l m,
    )
  where
    missing : (q : ℕ) → contains r.holes q ≡ true → s.exist (pack_entry q) ≡ 0
    missing q c =
        let (l, m) = a.behind q c in
        not_there ring s q v (omega (arith, l, a.past)) (omega (arith, m, a.room))
          (ground (arith, a.told.told q l m, c, a.mine q))

    dummy : (b : Bool) (n : ℕ) → n ≤ 2 → ((if b then 3 else n) == 3) ≡ b
    dummy true n l = refl
    dummy false n l = ground (arith, l)
