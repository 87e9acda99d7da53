-- ===== src/Prot/Deliver/Discard.antt =====
-- daemon/protocol.c: `Discard_packets` outside EVS.
use in5020_distribuerte_syst.Prelude.{
  ℕ, zero, suc, ◌+◌, ◌-◌, ◌<◌, ◌≤◌, ◌≡◌, ◌≢◌, refl, sym, ap, ◌∙◌, subst, Bool, true, false, ◌==◌,
  ltb, leb, if◌then◌else◌, Option, none, some, arith, Bool-cases, inl, inr, length,
}
use in5020_distribuerte_syst.Prot.Store.{Store, pack_entry, index_of}
use in5020_distribuerte_syst.Prot.Deliver.{
  chain, chained, place_of, deliver_packet, free, discard_from, discard_old, advance,
}
use in5020_distribuerte_syst.Prot.Deliver.Stream.{Ring, IsFramed}
use in5020_distribuerte_syst.Prot.Deliver.Order.{
  IsSound, pack_entry-inj, put_cases, one_or_two, chain-IsSound, pass-IsSound,
}

-- The state with other numbers of the last packet that was discarded and delivered.
abbrev placed : ℕ → ℕ → Store → Store
placed low high s = record s { last_discarded = low; last_delivered = high }

abbrev pub latest : ℕ → ℕ → ℕ
latest low high = if ltb high low then low else high

deliver_placed :
    (low high e : ℕ) (s : Store) {t : Store}
    → deliver_packet e (placed low high s) ≡ some t
    → deliver_packet e s ≡ some (chain e s)
unfolding deliver_packet chained place_of
deliver_placed low high e s {t} h = go (length (chained e s) == index_of (s.head e)) refl h
  where
    go :
        (b : Bool)
        → (length (chained e s) == index_of (s.head e)) ≡ b
        → (if b then some (chain e (placed low high s)) else none) ≡ some t
        → (if length (chained e s) == index_of (s.head e) then some (chain e s) else none)
          ≡ some (chain e s)
    go true fits h = rw fits refl
    go false fits h = cc

module _ (ring : Ring) (framed : IsFramed ring) where
  -- The packet behind the discarded ones is discarded, once it is delivered.
  free-IsSound :
      (low high : ℕ) (s : Store)
      → IsSound ring (placed low high s)
      → low < high
      → IsSound ring (placed (suc low) high (free (pack_entry (suc low)) s))
  free-IsSound low high s v l =
      let i = suc low in
      let e = pack_entry i in
      let r = v.room in
      let t = v.top in
      let a = v.ahead in
      record {
        behind = l;
        ahead = v.ahead;
        top = v.top;
        room = omega arith;
        flags = λ k. ground (arith, v.flags k);
        stored = λ j a c ne. elim (put_cases s.exist e 0 (pack_entry j)) [
          | inl (k, p) ↦ absurd (ne p)
          | inr (k, p) ↦ v.stored j (omega arith) (omega (arith, a, c, k)) (λ z. ne (p ∙ z))
        ];
        held = λ j a c z. elim (put_cases s.exist e 0 (pack_entry j)) [
          | inl (k, p) ↦ absurd (omega (arith, a, c, k, r, t, pack_entry-inj low j i))
          | inr (k, p) ↦ v.held j (omega arith) c (sym p ∙ z)
        ];
        done = λ j a c. elim (put_cases s.exist e 0 (pack_entry j)) [
          | inl (k, p) ↦ absurd (omega (arith, a, c, k, r, t, pack_entry-inj low j i))
          | inr (k, p) ↦ p ∙ v.done j (omega arith) c
        ];
        early = λ j a c two. elim (put_cases s.exist e 0 (pack_entry j)) [
          | inl (k, p) ↦ absurd (omega (arith, p, two))
          | inr (k, p) ↦ v.early j a (omega (arith, a, c, k)) (sym p ∙ two)
        ];
        stream = record {
          in_line = v.stream.in_line;
          in_parts = v.stream.in_parts;
          no_part = v.stream.no_part;
        };
      }

  -- What the loop leaves of the numbers.
  pub IsDiscarded : (aru my_aru highest_seq : ℕ) → Option Store → Type 0
  IsDiscarded aru my_aru highest_seq none = ⊥
  IsDiscarded aru my_aru highest_seq (some s) =
      IsSound ring (placed aru (latest aru s.last_delivered) s)
      × ((s.aru ≡ aru) × (s.my_aru ≡ my_aru) × (s.highest_seq ≡ highest_seq))

  discard_from-IsDiscarded :
      (n low high : ℕ) (s : Store)
      → low + n ≡ s.aru
      → s.aru ≤ s.my_aru
      → high ≡ latest low s.last_delivered
      → IsSound ring (placed low high s)
      → IsDiscarded s.aru s.my_aru s.highest_seq (discard_from n (suc low) s)
  unfolding discard_from IsDiscarded chain
  discard_from-IsDiscarded zero low high s end k h v =
      let at : low ≡ s.aru = omega arith in
      (
        subst (λ x. IsSound ring (placed s.aru x s)) (h ∙ ap (λ y. latest y s.last_delivered) at)
            (subst (λ y. IsSound ring (placed y high s)) at v),
        (refl, refl, refl),
      )
  discard_from-IsDiscarded (suc n) low high s end k h v =
      let i = suc low in
      let e = pack_entry i in
      let b = v.behind in
      let here : s.exist e ≢ 0 = v.held i (omega arith) (omega arith) in
      let not_zero : (s.exist e == 0) ≡ false = ground arith in
      elim (one_or_two (s.exist e) here (v.flags e)) [
        | inl one ↦
            let first : (s.exist e == 1) ≡ true = rw one refl in
            let at : high ≡ low = ground (arith, v.done i (omega arith)) in
            let v' = subst (λ x. IsSound ring (placed low x s)) at v in
            let (sent, v'') = chain-IsSound ring framed (placed low low s) v' (omega arith) one in
            rw (not_zero, first, deliver_placed low low e s sent)
              (discard_from-IsDiscarded n (suc low) (suc low) (free e (chain e s)) (omega arith) k
                (ground arith) (free-IsSound low (suc low) (chain e s) v'' (omega arith)))
        | inr two ↦
            let first : (s.exist e == 1) ≡ false = rw two refl in
            elim (Bool-cases (ltb low high)) [
              | inl past ↦
                  rw (not_zero, first)
                    (discard_from-IsDiscarded n (suc low) high (free e s) (omega arith) k
                      (ground arith) (free-IsSound low high s v (ground arith)))
              | inr turn ↦
                  let at : high ≡ low = ground arith in
                  let v' = subst (λ x. IsSound ring (placed low x s)) at v in
                  let v'' = pass-IsSound ring framed (placed low low s) v' (omega arith) two in
                  rw (not_zero, first)
                    (discard_from-IsDiscarded n (suc low) (suc low) (free e s) (omega arith) k
                      (ground arith) (free-IsSound low (suc low) s v'' (omega arith)))
            ]
      ]

  -- Where Aru is at most My_aru, Discard_packets outside EVS, from a sound state of the packets,
  -- returns, keeps that state, and has discarded every packet up to Aru.
  pub discard_old-IsSound :
      (s : Store)
      → s.aru ≤ s.my_aru
      → IsSound ring s
      → (s' : Store) × (discard_old s ≡ some s')
        × IsSound ring s'
        × (s'.aru ≡ s.aru)
        × (s'.my_aru ≡ s.my_aru)
        × (s'.highest_seq ≡ s.highest_seq)
        × (s'.last_discarded ≡ latest s.aru s.last_discarded)
  unfolding discard_old IsDiscarded
  discard_old-IsSound s k v = elim (Bool-cases (leb s.aru s.last_discarded)) [
    | inl low ↦ (s, rw low refl, v, refl, refl, refl, ground arith)
    | inr high ↦
        let kept =
          discard_from-IsDiscarded (s.aru - s.last_discarded) s.last_discarded s.last_delivered s
            (ground arith) k (ground (arith, v.behind)) v in
        go high (discard_from (s.aru - s.last_discarded) (suc s.last_discarded) s) refl kept
  ]
    where
      go :
          leb s.aru s.last_discarded ≡ false
          → (o : Option Store)
          → discard_from (s.aru - s.last_discarded) (suc s.last_discarded) s ≡ o
          → IsDiscarded s.aru s.my_aru s.highest_seq o
          → (s' : Store) × (discard_old s ≡ some s')
            × IsSound ring s'
            × (s'.aru ≡ s.aru)
            × (s'.my_aru ≡ s.my_aru)
            × (s'.highest_seq ≡ s.highest_seq)
            × (s'.last_discarded ≡ latest s.aru s.last_discarded)
      go high none e kept = absurd kept
      go high (some t) e (v', (a, m, t')) = (
        advance t,
        rw (high, e) refl,
        subst (λ x. IsSound ring (placed x (latest x t.last_delivered) t)) (sym a) v',
        a,
        m,
        t',
        a ∙ ground arith,
      )
