-- ===== src/Prot/Receive/Insert.antt =====
-- daemon/protocol.c: a packet that comes in keeps the state of the packets.
use in5020_distribuerte_syst.Prelude.{
  ℕ, zero, suc, ◌+◌, ◌-◌, ◌<◌, ◌≤◌, ◌≡◌, ◌≢◌, refl, sym, ◌∙◌, subst, true, false, ◌==◌, leb, List,
  [], ◌∷◌, Option, none, some, arith, Bool-cases, ==_refl, inl, inr,
}
use native.Mathlib.Decide.{ℕ_discrete}
use in5020_distribuerte_syst.Conf.{Proc, proc_by_id}
use in5020_distribuerte_syst.Prot.Store.{Store, Header, pack_entry}
use in5020_distribuerte_syst.Prot.Deliver.Stream.{Ring, IsFramed}
use in5020_distribuerte_syst.Prot.Deliver.Order.{
  IsSound, IsAgreed, deliver_agreed-IsAgreed, pack_entry-inj,
}
use in5020_distribuerte_syst.Prot.Deliver.Early.{IsThere, deliver_reliable-IsThere}
use in5020_distribuerte_syst.Prot.Receive.{
  raise, place_packet, raised, update, insert_packet, insert_packets,
}

pub raise-found :
    (n a : ℕ) (exist : ℕ → ℕ)
    → (a ≤ raise n (suc a) exist a)
      × (raise n (suc a) exist a ≤ a + n)
      × ((i : ℕ) → a < i → i ≤ raise n (suc a) exist a → exist (pack_entry i) ≢ 0)
unfolding raise
raise-found zero a exist = (omega arith, omega arith, (λ i l m. absurd (omega arith)))
raise-found (suc n) a exist =
    let (low, high, all) = raise-found n (suc a) exist in
    elim (Bool-cases (exist (pack_entry (suc a)) == 0)) [
      | inl none_there ↦ rw none_there (omega arith, omega arith, (λ i l m. absurd (omega arith)))
      | inr there ↦ rw there (
        omega (arith, low),
        omega (arith, high),
        (λ i l m. elim (ℕ_discrete i (suc a)) [
          | yes same ↦ rw same (λ z. absurd (ground arith))
          | no other ↦ all i (omega (arith, l, other)) m
        ]),
      )
    ]

raised-IsSound : (ring : Ring) (s : Store) → IsSound ring s → IsSound ring (raised (suc s.my_aru) s)
raised-IsSound ring s v =
    let (low, high, all) = raise-found (suc s.highest_seq - suc s.my_aru) s.my_aru s.exist in
    let a = v.ahead in
    let t = v.top in
    record {
      behind = v.behind;
      ahead = omega (arith, low);
      top = omega (arith, high);
      room = v.room;
      flags = v.flags;
      stored = v.stored;
      held = λ i l m. elim (Bool-cases (leb i s.my_aru)) [
        | inl old ↦ v.held i l (ground arith)
        | inr new ↦ all i (ground arith) m
      ];
      done = v.done;
      early = v.early;
      stream = record {
        in_line = v.stream.in_line;
        in_parts = v.stream.in_parts;
        no_part = v.stream.no_part;
      };
    }

pub place_packet-IsSound :
    (ring : Ring) (index : ℕ) (h : Header) (body : ℕ) (s : Store)
    → IsSound ring s
    → s.last_discarded < h.seq
    → h.seq ≤ s.last_discarded + 8192
    → s.exist (pack_entry h.seq) ≡ 0
    → h ≡ ring.packet h.seq
    → index ≡ ring.owner h.seq
    → IsSound ring (place_packet index h body s)
unfolding place_packet
place_packet-IsSound ring index h body s v l m empty same own =
    let e = pack_entry h.seq in
    let b = v.behind in
    let a = v.ahead in
    let t = v.top in
    let r = v.room in
    record {
      behind = b;
      ahead = a;
      top = ground arith;
      room = ground arith;
      flags = λ k. ground (arith, v.flags k);
      stored = λ j lo hi ne. elim (ℕ_discrete (pack_entry j) e) [
        | yes k ↦
            let at : j ≡ h.seq = pack_entry-inj s.last_discarded j h.seq lo hi l m k in
            rw (at, ==_refl e) (ground arith, same, own)
        | no k ↦
            let kept : (pack_entry j == e) ≡ false = ground arith in
            let (old, x, y) = v.stored j lo hi (λ z. ne (rw kept z)) in rw kept (ground arith, x, y)
      ];
      held = λ j lo hi z. v.held j lo hi (ground arith);
      done = λ j lo hi. ground (arith, v.done j lo hi);
      early = λ j lo hi two. v.early j lo hi (ground arith);
      stream = record {
        in_line = v.stream.in_line;
        in_parts = v.stream.in_parts;
        no_part = v.stream.no_part;
      };
    }

-- What a packet that comes in leaves: the same `Aru` and the same packets discarded.
IsKept : Ring → (aru last_discarded : ℕ) → Option Store → Type 0
IsKept ring aru last_discarded none = ⊥
IsKept ring aru last_discarded (some s) =
    IsSound ring s × (s.aru ≡ aru) × (s.last_discarded ≡ last_discarded)

IsAgreed-IsKept :
    (ring : Ring) (f : IsFramed ring) (aru my_aru high low : ℕ) (o : Option Store)
    → IsAgreed ring f aru my_aru high low o
    → IsKept ring aru low o
unfolding IsKept IsAgreed
IsAgreed-IsKept ring f aru my_aru high low none h = h
IsAgreed-IsKept ring f aru my_aru high low (some s) (v, (a, m, t, l), p) = (v, a, l)

IsThere-IsKept :
    (ring : Ring) (aru my_aru high low last : ℕ) (o : Option Store)
    → IsThere ring aru my_aru high low last o
    → IsKept ring aru low o
unfolding IsKept IsThere
IsThere-IsKept ring aru my_aru high low last none h = h
IsThere-IsKept ring aru my_aru high low last (some s) (v, (a, m, t, l, d)) = (v, a, l)

update-IsKept :
    (ring : Ring) (f : IsFramed ring) (seq : ℕ) (s : Store)
    → seq ≤ s.highest_seq
    → IsSound ring s
    → IsKept ring s.aru s.last_discarded (update false seq s)
unfolding update
update-IsKept ring f seq s l v = elim (Bool-cases (seq == suc s.my_aru)) [
  | inl next ↦
      let at : seq ≡ suc s.my_aru = ground arith in
      rw (next, at)
        (IsAgreed-IsKept ring f _ _ _ _ _
          (deliver_agreed-IsAgreed ring f (raised (suc s.my_aru) s) (raised-IsSound ring s v)))
  | inr other ↦
      rw other
        (IsThere-IsKept ring _ _ _ _ _ _ (deliver_reliable-IsThere ring seq 1 s (omega arith) v))
]

-- A packet that the ring has sent, from a process at its place in the table, no more than 8192
-- behind the discarded ones.
pub record IsOf (ring : Ring) (table : List Proc) (low : ℕ) (h : Header) : Type 0 where
  pub near : h.seq ≤ low + 8192
  pub same : h ≡ ring.packet h.seq
  pub owned : {k : ℕ} {p : Proc} → proc_by_id table h.proc_id ≡ some (k, p) → k ≡ ring.owner h.seq

insert_packet-IsKept :
    (ring : Ring) (f : IsFramed ring) (table : List Proc) (h : Header) (body : ℕ) (s : Store)
    → s.last_discarded ≤ s.aru
    → IsOf ring table s.last_discarded h
    → IsSound ring s
    → IsKept ring s.aru s.last_discarded (insert_packet false table h body s)
unfolding insert_packet IsKept place_packet
insert_packet-IsKept ring f table h body s l of v = elim (Bool-cases (leb h.seq s.aru)) [
  | inl old ↦ rw old (v, refl, refl)
  | inr new ↦ elim (Bool-cases (s.exist (pack_entry h.seq) == 0)) [
    | inr there ↦ rw (new, there) (v, refl, refl)
    | inl empty ↦ rw (new, empty) (go (proc_by_id table h.proc_id) refl new empty)
  ]
]
  where
    go :
        (o : Option (ℕ × Proc))
        → proc_by_id table h.proc_id ≡ o
        → leb h.seq s.aru ≡ false
        → (s.exist (pack_entry h.seq) == 0) ≡ true
        → IsKept ring s.aru s.last_discarded (elim o [
          | none ↦ some s
          | some (index, p) ↦ update false h.seq (place_packet index h body s)
        ])
    go none e new empty = (v, refl, refl)
    go (some (index, p)) e new empty =
        update-IsKept ring f h.seq (place_packet index h body s) (ground arith) (
          place_packet-IsSound ring index h body s v (ground arith) of.near (ground arith) of.same
            (of.owned e))

IsKept-some :
    (ring : Ring) (aru low : ℕ) (o : Option Store)
    → IsKept ring aru low o
    → (s : Store) × (o ≡ some s) × IsSound ring s × (s.aru ≡ aru) × (s.last_discarded ≡ low)
unfolding IsKept
IsKept-some ring aru low none h = absurd h
IsKept-some ring aru low (some s) (v, a, l) = (s, refl, v, a, l)

unfoldable pub AllOf : Ring → List Proc → ℕ → List (Header × ℕ) → Type 0
AllOf ring table low [] = Unit
AllOf ring table low ((h, body) ∷ ps) = IsOf ring table low h × AllOf ring table low ps

-- Where no more is discarded than Aru, packets of the ring that come in to Prot_handle_bcast
-- outside EVS, in any order and any number of times, each at most 8192 behind the discarded ones,
-- never end the program, keep the state of the packets, and leave Aru and the discarded ones as
-- they are.
pub insert_packets-IsSound :
    (ring : Ring) (table : List Proc) (ps : List (Header × ℕ)) (s : Store)
    → IsFramed ring
    → s.last_discarded ≤ s.aru
    → AllOf ring table s.last_discarded ps
    → IsSound ring s
    → (s' : Store) × (insert_packets false table ps s ≡ some s')
      × IsSound ring s'
      × (s'.aru ≡ s.aru)
      × (s'.last_discarded ≡ s.last_discarded)
unfolding insert_packets AllOf IsKept
insert_packets-IsSound ring table [] s f l all v = (s, refl, v, refl, refl)
insert_packets-IsSound ring table ((h, body) ∷ ps) s f l (of, all) v =
    let (t, e, v', a, low) =
      IsKept-some ring s.aru s.last_discarded (insert_packet false table h body s)
        (insert_packet-IsKept ring f table h body s l of v) in
    let (s', done, v'', a', low') =
      insert_packets-IsSound ring table ps t f (omega (arith, l, a, low))
        (subst (λ x. AllOf ring table x ps) (sym low) all) v' in
    (s', rw e done, v'', a' ∙ a, low' ∙ low)
