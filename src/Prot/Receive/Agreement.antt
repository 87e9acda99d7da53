-- ===== src/Prot/Receive/Agreement.antt =====
-- daemon/protocol.c: what two daemons of one ring have delivered, whatever came in to each.
use in5020_distribuerte_syst.Prelude.{
  ℕ, zero, suc, ◌+◌, ◌-◌, ◌≤◌, ◌≡◌, sym, ap, ◌∙◌, false, leb, ◌⊎◌, some, List, [], ◌∷◌, ◌++◌, arith,
  Bool-cases, inl, inr,
}
use in5020_distribuerte_syst.Conf.{Proc}
use in5020_distribuerte_syst.Prot.Store.{Store, Header, is_single}
use in5020_distribuerte_syst.Prot.Deliver.Stream.{Ring, IsFramed, ordered, line}
use in5020_distribuerte_syst.Prot.Deliver.Order.{IsSound}
use in5020_distribuerte_syst.Prot.Receive.{insert_packets}
use in5020_distribuerte_syst.Prot.Receive.Insert.{AllOf, insert_packets-IsSound}

line-append : (ring : Ring) (k n : ℕ) → (hs : List Header) × (line ring (k + n) ≡ hs ++ line ring n)
unfolding line
line-append ring zero n = ([], ap (line ring) (omega arith))
line-append ring (suc k) n =
    let (hs, e) = line-append ring k n in
    let at : suc k + n ≡ suc (k + n) = omega arith in
    elim (Bool-cases (is_single (ring.packet (suc (k + n))))) [
      | inl one ↦ (hs, ap (line ring) at ∙ rw one e)
      | inr many ↦ (
        ring.packet (suc (k + n)) ∷ hs,
        ap (line ring) at ∙ rw many (ap (λ xs. ring.packet (suc (k + n)) ∷ xs) e),
      )
    ]

-- Where two daemons of one ring have their packets in order, and the first has delivered no more
-- than the second, the second has delivered, of the packets that need order, what the first has, in
-- the same order, and then more (the last one stands first).
ordered-append :
    (ring : Ring) (s t : Store)
    → IsSound ring s
    → IsSound ring t
    → s.last_delivered ≤ t.last_delivered
    → (hs : List Header) × (ordered t.delivered ≡ hs ++ ordered s.delivered)
ordered-append ring s t v w l =
    let (hs, e) = line-append ring (t.last_delivered - s.last_delivered) s.last_delivered in
    (
      hs,
      w.stream.in_line
          ∙ ap (line ring) (omega (arith, l))
          ∙ e
          ∙ ap (λ xs. hs ++ xs) (sym v.stream.in_line),
    )

-- Of the packets that need order, `t` has delivered what `s` has, in the same order, and then more (the
-- last one stands first).
abbrev pub GoesOn : Store → Store → Type 0
GoesOn s t = (hs : List Header) × (ordered t.delivered ≡ hs ++ ordered s.delivered)

-- Where two daemons of one framed ring have a sound state of the packets, with no more discarded
-- than Aru, and to each come packets of the ring outside EVS, to each others, in any order and any
-- number of times, each at most 8192 behind its discarded ones: Prot_handle_bcast takes them
-- without ending the program, and of the packets that need order one of the two has then delivered
-- what the other has, in the same order, and maybe more.
pub insert_packets_agree :
    (ring : Ring) (table : List Proc) (ps qs : List (Header × ℕ)) (s t : Store)
    → IsFramed ring
    → (s.last_discarded ≤ s.aru) × AllOf ring table s.last_discarded ps × IsSound ring s
    → (t.last_discarded ≤ t.aru) × AllOf ring table t.last_discarded qs × IsSound ring t
    → (s' : Store) × (t' : Store) × (insert_packets false table ps s ≡ some s')
      × (insert_packets false table qs t ≡ some t')
      × (GoesOn s' t' ⊎ GoesOn t' s')
insert_packets_agree ring table ps qs s t f (l, a, v) (m, b, w) =
    let (s', e, v', _, _) = insert_packets-IsSound ring table ps s f l a v in
    let (t', e', w', _, _) = insert_packets-IsSound ring table qs t f m b w in
    (
      s',
      t',
      e,
      e',
      elim (Bool-cases (leb s'.last_delivered t'.last_delivered)) [
        | inl less ↦ inl (ordered-append ring s' t' v' w' (ground arith))
        | inr more ↦ inr (ordered-append ring t' s' w' v' (ground arith))
      ],
    )
