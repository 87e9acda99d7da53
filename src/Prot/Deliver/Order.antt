-- ===== src/Prot/Deliver/Order.antt =====
-- daemon/protocol.c: the state of the packets that every delivery keeps outside EVS.
use in5020_distribuerte_syst.Prelude.{
  ℕ, zero, suc, ◌+◌, ◌-◌, ◌<◌, ◌≤◌, ◌≡◌, ◌≢◌, ◌⊎◌, refl, sym, ap, ◌∙◌, subst, true, false, ◌==◌,
  leb, Option, none, some, arith, Bool-cases, inl, inr,
}
use native.Mathlib.Decide.{ℕ_discrete}
use in5020_distribuerte_syst.Prot.Store.{Store, put, pack_entry, is_single, is_safe}
use in5020_distribuerte_syst.Prot.Deliver.{
  chain, deliver_packet, pass_one, agreed_from, deliver_agreed,
}
use in5020_distribuerte_syst.Prot.Deliver.Stream.{
  Ring, IsFramed, IsDelivered, chain_next, skip_single,
}

-- The state of a daemon in the ring. What it has not discarded lies within the 8192 entries; it has
-- every packet up to `My_aru`, and has delivered those up to `Last_delivered` and, behind them,
-- none that needs order.
pub record IsSound (ring : Ring) (s : Store) : Type 0 where
  pub behind : s.last_discarded ≤ s.last_delivered
  pub ahead : s.last_delivered ≤ s.my_aru
  pub top : s.my_aru ≤ s.highest_seq
  pub room : s.highest_seq ≤ s.last_discarded + 8192
  pub flags : (e : ℕ) → s.exist e ≤ 2
  pub stored :
      (i : ℕ)
      → s.last_discarded < i
      → i ≤ s.last_discarded + 8192
      → s.exist (pack_entry i) ≢ 0
      → (i ≤ s.highest_seq)
        × (s.head (pack_entry i) ≡ ring.packet i)
        × (s.proc_index (pack_entry i) ≡ ring.owner i)
  pub held : (i : ℕ) → s.last_discarded < i → i ≤ s.my_aru → s.exist (pack_entry i) ≢ 0
  pub done : (i : ℕ) → s.last_discarded < i → i ≤ s.last_delivered → s.exist (pack_entry i) ≡ 2
  pub early :
      (i : ℕ)
      → s.last_delivered < i
      → i ≤ s.last_discarded + 8192
      → s.exist (pack_entry i) ≡ 2
      → is_single (ring.packet i) ≡ true
  pub stream : IsDelivered ring s.last_delivered s

-- Within the window, an entry is that of one number.
pub pack_entry-inj :
    (low i j : ℕ)
    → low < i
    → i ≤ low + 8192
    → low < j
    → j ≤ low + 8192
    → pack_entry i ≡ pack_entry j
    → i ≡ j
pack_entry-inj low i j a b c d e = omega arith

pub put_cases :
    (f : ℕ → ℕ) (e v k : ℕ) → ((k ≡ e) × (put f e v k ≡ v)) ⊎ ((k ≢ e) × (put f e v k ≡ f k))
put_cases f e v k = ground arith

pub one_or_two : (x : ℕ) → x ≢ 0 → x ≤ 2 → (x ≡ 1) ⊎ (x ≡ 2)
one_or_two x ne l = ground arith

module _ (ring : Ring) (framed : IsFramed ring) where
  -- The next packet is delivered.
  pub chain-IsSound :
      (s : Store)
      → IsSound ring s
      → s.last_delivered < s.my_aru
      → s.exist (pack_entry (suc s.last_delivered)) ≡ 1
      → (deliver_packet (pack_entry (suc s.last_delivered)) s
          ≡ some (chain (pack_entry (suc s.last_delivered)) s))
        × IsSound ring (pass_one (chain (pack_entry (suc s.last_delivered)) s))
  unfolding chain
  chain-IsSound s v l one =
      let i = suc s.last_delivered in
      let e = pack_entry i in
      let b = v.behind in
      let t = v.top in
      let r = v.room in
      let (h, same, own) = v.stored i (omega arith) (omega arith) (λ z. absurd (omega arith)) in
      let (sent, d) = chain_next ring s.last_delivered e s framed v.stream same own in
      (
        sent,
        record {
          behind = omega arith;
          ahead = l;
          top = t;
          room = r;
          flags = λ k. ground (arith, v.flags k);
          stored = λ j a c ne. v.stored j a c (λ z. elim (put_cases s.exist e 2 (pack_entry j)) [
            | inl (k, p) ↦ absurd (omega (arith, z, one, ap s.exist k))
            | inr (k, p) ↦ ne (p ∙ z)
          ]);
          held = λ j a c z. elim (put_cases s.exist e 2 (pack_entry j)) [
            | inl (k, p) ↦ absurd (omega (arith, z, p))
            | inr (k, p) ↦ v.held j a c (sym p ∙ z)
          ];
          done = λ j a c. elim (put_cases s.exist e 2 (pack_entry j)) [
            | inl (k, p) ↦ p
            | inr (k, p) ↦ p ∙ v.done j a (omega (arith, c, k))
          ];
          early = λ j a c two.
              v.early j (omega arith) c (elim (put_cases s.exist e 2 (pack_entry j)) [
                | inl (k, p) ↦
                    absurd (omega (arith, a, c, k, b, pack_entry-inj s.last_discarded j i))
                | inr (k, p) ↦ sym p ∙ two
              ]);
          stream = record { in_line = d.in_line; in_parts = d.in_parts; no_part = d.no_part };
        },
      )

  -- A packet that was delivered before its turn is passed over.
  pub pass-IsSound :
      (s : Store)
      → IsSound ring s
      → s.last_delivered < s.my_aru
      → s.exist (pack_entry (suc s.last_delivered)) ≡ 2
      → IsSound ring (pass_one s)
  pass-IsSound s v l two =
      let i = suc s.last_delivered in
      let b = v.behind in
      let t = v.top in
      let r = v.room in
      let d =
        skip_single ring s.last_delivered s v.stream (v.early i (omega arith) (omega arith) two) in
      record {
        behind = omega arith;
        ahead = l;
        top = t;
        room = r;
        flags = v.flags;
        stored = v.stored;
        held = v.held;
        done = λ j a c. elim (ℕ_discrete j i) [
          | yes k ↦ ap (λ x. s.exist (pack_entry x)) k ∙ two
          | no k ↦ v.done j a (omega (arith, c, k))
        ];
        early = λ j a c. v.early j (omega arith) c;
        stream = record { in_line = d.in_line; in_parts = d.in_parts; no_part = d.no_part };
      }

  -- What `Deliver_agreed_packets` leaves: it goes on to `My_aru` or to a safe packet.
  unfoldable pub IsAgreed : (aru my_aru highest_seq last_discarded : ℕ) → Option Store → Type 0
  IsAgreed aru my_aru highest_seq last_discarded none = ⊥
  IsAgreed aru my_aru highest_seq last_discarded (some s) =
      IsSound ring s
      × ((s.aru ≡ aru)
          × (s.my_aru ≡ my_aru)
          × (s.highest_seq ≡ highest_seq)
          × (s.last_discarded ≡ last_discarded))
      × ((s.last_delivered ≡ s.my_aru) ⊎ (is_safe (ring.packet (suc s.last_delivered)) ≡ true))

  agreed_from-IsAgreed :
      (n : ℕ) (s : Store)
      → s.last_delivered + n ≡ s.my_aru
      → IsSound ring s
      → IsAgreed s.aru s.my_aru s.highest_seq s.last_discarded
          (agreed_from n (suc s.last_delivered) s)
  unfolding agreed_from IsAgreed chain
  agreed_from-IsAgreed zero s end v = (v, (refl, refl, refl, refl), inl (omega arith))
  agreed_from-IsAgreed (suc n) s end v =
      let i = suc s.last_delivered in
      let e = pack_entry i in
      let b = v.behind in
      let t = v.top in
      let r = v.room in
      let here : s.exist e ≢ 0 = v.held i (omega arith) (omega arith) in
      elim (one_or_two (s.exist e) here (v.flags e)) [
        | inl one ↦
            let (sent, v') = chain-IsSound s v (omega arith) one in
            let (h, same, own) = v.stored i (omega arith) (omega arith) here in
            let first : (s.exist e == 1) ≡ true = rw one refl in
            elim (Bool-cases (is_safe (s.head e))) [
              | inl safe ↦
                  rw (first, safe)
                    (v, (refl, refl, refl, refl), inr (subst (λ k. is_safe k ≡ true) same safe))
              | inr unsafe ↦
                  rw (first, unsafe, sent)
                    (agreed_from-IsAgreed n (pass_one (chain e s)) (omega arith) v')
            ]
        | inr two ↦
            let first : (s.exist e == 1) ≡ false = rw two refl in
            let second : (s.exist e == 2) ≡ true = rw two refl in
            rw (first, second)
              (agreed_from-IsAgreed n (pass_one s) (omega arith)
                (pass-IsSound s v (omega arith) two))
      ]

  -- Deliver_agreed_packets outside EVS, from a sound state of the packets, returns, keeps that
  -- state and the aru, and goes on to My_aru or to a safe packet.
  pub deliver_agreed-IsAgreed :
      (s : Store)
      → IsSound ring s
      → IsAgreed s.aru s.my_aru s.highest_seq s.last_discarded (deliver_agreed false s)
  unfolding deliver_agreed IsAgreed
  deliver_agreed-IsAgreed s v = elim (Bool-cases (leb s.my_aru s.last_delivered)) [
    | inl all ↦ rw all (v, (refl, refl, refl, refl), inl (ground (arith, v.ahead)))
    | inr some_left ↦
        rw some_left
          (agreed_from-IsAgreed (s.my_aru - s.last_delivered) s (ground (arith, v.ahead)) v)
  ]
