-- ===== src/Prot/Deliver/Empty.antt =====
-- daemon/protocol.c: an entry that is empty stays empty when packets are discarded.
use in5020_distribuerte_syst.Prelude.{
  ℕ, zero, suc, ◌-◌, ◌≡◌, ap, ◌∙◌, subst, Bool, true, false, ◌==◌, leb, length, if◌then◌else◌,
  Bool-cases, inl, inr, Option, none, some, ◌>>=◌, arith,
}
use in5020_distribuerte_syst.Prot.Store.{Store, pack_entry, index_of}
use in5020_distribuerte_syst.Prot.Deliver.{
  chain, chained, deliver_packet, free, discard_from, discard_old, advance,
}
use in5020_distribuerte_syst.Prot.Deliver.Order.{put_cases}

-- The entry is empty, where there is a state.
abbrev IsEmpty : ℕ → Option Store → Type 0
IsEmpty k none = Unit
IsEmpty k (some t) = t.exist k ≡ 0

deliver-IsEmpty :
    (e k : ℕ) (s : Store)
    → (s.exist e == 0) ≡ false
    → s.exist k ≡ 0
    → IsEmpty k (deliver_packet e s)
unfolding deliver_packet chain
deliver-IsEmpty e k s used z = go (length (chained e s) == index_of (s.head e))
  where
    go : (b : Bool) → IsEmpty k (if b then some (chain e s) else none)
    go false = tt
    go true = elim (put_cases s.exist e 2 k) [
      | inl (same, p) ↦ absurd (ground (arith, used, z, ap s.exist same))
      | inr (other, p) ↦ p ∙ z
    ]

discard_from-IsEmpty : (n i k : ℕ) (s : Store) → s.exist k ≡ 0 → IsEmpty k (discard_from n i s)
unfolding discard_from
discard_from-IsEmpty zero i k s z = z
discard_from-IsEmpty (suc n) i k s z = elim (Bool-cases (s.exist (pack_entry i) == 0)) [
  | inl missing ↦ rw missing tt
  | inr used ↦ rw used (
      go (if s.exist (pack_entry i) == 1 then deliver_packet (pack_entry i) s else some s)
        (first used) (λ t h. discard_from-IsEmpty n (suc i) k t h))
]
  where
    first :
        (s.exist (pack_entry i) == 0) ≡ false
        → IsEmpty k
            (if s.exist (pack_entry i) == 1 then deliver_packet (pack_entry i) s else some s)
    first used = elim (Bool-cases (s.exist (pack_entry i) == 1)) [
      | inl one ↦ rw one (deliver-IsEmpty (pack_entry i) k s used z)
      | inr other ↦ rw other z
    ]

    go :
        (o : Option Store)
        → IsEmpty k o
        → ((t : Store) → t.exist k ≡ 0 → IsEmpty k (discard_from n (suc i) t))
        → IsEmpty k (o >>= λ s'. discard_from n (suc i) (free (pack_entry i) s'))
    go none h rest = tt
    go (some t) h rest =
        rest (free (pack_entry i) t) (elim (put_cases t.exist (pack_entry i) 0 k) [
          | inl (same, p) ↦ p
          | inr (other, p) ↦ p ∙ h
        ])

pub discard_old-empty :
    (k : ℕ) (s t : Store) → discard_old s ≡ some t → s.exist k ≡ 0 → t.exist k ≡ 0
unfolding discard_old
discard_old-empty k s t e z = subst (λ o. IsEmpty k o) e whole
  where
    go : (o : Option Store) → IsEmpty k o → IsEmpty k (o >>= λ s'. some (advance s'))
    go none h = tt
    go (some u) h = h

    whole : IsEmpty k (discard_old s)
    whole = elim (Bool-cases (leb s.aru s.last_discarded)) [
      | inl low ↦ rw low z
      | inr high ↦ rw high (
          go (discard_from (s.aru - s.last_discarded) (suc s.last_discarded) s)
            (discard_from-IsEmpty (s.aru - s.last_discarded) (suc s.last_discarded) k s z))
    ]
