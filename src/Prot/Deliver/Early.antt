-- ===== src/Prot/Deliver/Early.antt =====
-- daemon/protocol.c: `Deliver_reliable_packets`, before the turn of the packets.
use in5020_distribuerte_syst.Prelude.{
  ℕ, zero, suc, ◌+◌, ◌-◌, ◌<◌, ◌≤◌, ◌≡◌, refl, sym, ap, ◌∙◌, subst, true, false, ◌&&◌, ◌==◌, leb,
  Option, none, some, arith, Bool-cases, inl, inr,
}
use in5020_distribuerte_syst.Prot.Store.{Store, pack_entry, is_single}
use in5020_distribuerte_syst.Prot.Deliver.{chain, deliver_packet, reliable_from, deliver_reliable}
use in5020_distribuerte_syst.Prot.Deliver.Stream.{Ring, chain_early}
use in5020_distribuerte_syst.Prot.Deliver.Order.{IsSound, pack_entry-inj, put_cases}

module _ (ring : Ring) where
  chain_early-IsSound :
      (s : Store) (i : ℕ)
      → IsSound ring s
      → s.last_delivered < i
      → i ≤ s.highest_seq
      → s.exist (pack_entry i) ≡ 1
      → is_single (s.head (pack_entry i)) ≡ true
      → (deliver_packet (pack_entry i) s ≡ some (chain (pack_entry i) s))
        × IsSound ring (chain (pack_entry i) s)
  unfolding chain
  chain_early-IsSound s i v l m one single =
      let e = pack_entry i in
      let b = v.behind in
      let r = v.room in
      let (h, same, own) = v.stored i (omega arith) (omega arith) (λ z. absurd (omega arith)) in
      let (sent, d) = chain_early ring s.last_delivered e s v.stream single in
      (
        sent,
        record {
          behind = b;
          ahead = v.ahead;
          top = v.top;
          room = r;
          flags = λ k. ground (arith, v.flags k);
          stored = λ j a c ne. v.stored j a c (λ z. elim (put_cases s.exist e 2 (pack_entry j)) [
            | inl (k, p) ↦ absurd (omega (arith, z, one, ap s.exist k))
            | inr (k, p) ↦ ne (p ∙ z)
          ]);
          held = λ j a c z. elim (put_cases s.exist e 2 (pack_entry j)) [
            | inl (k, p) ↦ absurd (omega (arith, z, p))
            | inr (k, p) ↦ v.held j a c (sym p ∙ z)
          ];
          done = λ j a c. elim (put_cases s.exist e 2 (pack_entry j)) [
            | inl (k, p) ↦ p
            | inr (k, p) ↦ p ∙ v.done j a c
          ];
          early = λ j a c two. elim (put_cases s.exist e 2 (pack_entry j)) [
            | inl (k, p) ↦
                let at : j ≡ i = omega (arith, a, c, k, b, pack_entry-inj s.last_discarded j i) in
                subst (λ x. is_single (ring.packet x) ≡ true) (sym at)
                  (subst (λ x. is_single x ≡ true) same single)
            | inr (k, p) ↦ v.early j a c (sym p ∙ two)
          ];
          stream = record { in_line = d.in_line; in_parts = d.in_parts; no_part = d.no_part };
        },
      )

  -- The daemon is in the same place of the ring.
  unfoldable pub IsThere :
      (aru my_aru highest_seq last_discarded last_delivered : ℕ) → Option Store → Type 0
  IsThere aru my_aru highest_seq last_discarded last_delivered none = ⊥
  IsThere aru my_aru highest_seq last_discarded last_delivered (some s) =
      IsSound ring s
      × ((s.aru ≡ aru)
          × (s.my_aru ≡ my_aru)
          × (s.highest_seq ≡ highest_seq)
          × (s.last_discarded ≡ last_discarded)
          × (s.last_delivered ≡ last_delivered))

  reliable_from-IsThere :
      (n i : ℕ) (s : Store)
      → s.last_delivered < i
      → i + n ≤ suc s.highest_seq
      → IsSound ring s
      → IsThere s.aru s.my_aru s.highest_seq s.last_discarded s.last_delivered (reliable_from n i s)
  unfolding reliable_from IsThere chain
  reliable_from-IsThere zero i s l end v = (v, (refl, refl, refl, refl, refl))
  reliable_from-IsThere (suc n) i s l end v =
      let e = pack_entry i in
      elim (Bool-cases ((s.exist e == 1) && is_single (s.head e))) [
        | inl both ↦
            let one : s.exist e ≡ 1 = ground arith in
            let single : is_single (s.head e) ≡ true = ground arith in
            let (sent, v') = chain_early-IsSound s i v l (omega arith) one single in
            rw (both, sent)
              (reliable_from-IsThere n (suc i) (chain e s) (omega arith) (omega arith) v')
        | inr other ↦ rw other (reliable_from-IsThere n (suc i) s (omega arith) (omega arith) v)
      ]

  -- `Deliver_reliable_packets` outside EVS, up to the highest packet at most, returns and keeps the
  -- place in the ring.
  pub deliver_reliable-IsThere :
      (start_seq num_packets : ℕ) (s : Store)
      → start_seq + num_packets ≤ suc s.highest_seq
      → IsSound ring s
      → IsThere s.aru s.my_aru s.highest_seq s.last_discarded s.last_delivered
          (deliver_reliable false start_seq num_packets s)
  unfolding deliver_reliable
  deliver_reliable-IsThere start_seq num_packets s end v =
      let a = v.ahead in
      let t = v.top in
      elim (Bool-cases (leb start_seq s.last_delivered)) [
        | inl low ↦ rw low (
            reliable_from-IsThere (start_seq + num_packets - suc s.last_delivered)
              (suc s.last_delivered) s (omega arith) (omega arith) v)
        | inr high ↦ rw high (reliable_from-IsThere num_packets start_seq s (ground arith) end v)
      ]
