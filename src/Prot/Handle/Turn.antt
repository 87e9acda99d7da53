-- ===== src/Prot/Handle/Turn.antt =====
-- daemon/protocol.c: which tokens are taken, and what a taken token leaves of the packets.
use in5020_distribuerte_syst.Prelude.{
  ℕ, suc, ◌%◌, ◌<◌, ◌≡◌, ◌≢◌, ◌↔◌, refl, subst, Bool, true, false, ◌==◌, ==_iff, ltb, if◌then◌else◌,
  Bool-cases, inl, inr, arith,
}
use in5020_distribuerte_syst.Prot.Token.{get_arq, set_arq, get_retrans, set_retrans}
use in5020_distribuerte_syst.Prot.Token.Bits.{get-set}
use in5020_distribuerte_syst.Prot.Handle.{judge, Verdict, swallow, resend_last, take_it}
use in5020_distribuerte_syst.Prot.Handle.Token.{next_kind}

arq_of_next : (kind : ℕ) → get_arq (next_kind true kind) ≡ suc (get_arq kind) % 16
arq_of_next kind =
    let val = suc (get_arq kind) % 16 in
    omega (arith, (get-set (set_arq kind val) 0).3, (get-set kind val).0)

arq_small : (kind : ℕ) → get_arq kind < 16
unfolding get_arq
arq_small kind = omega arith

judge-once :
    (leads : Bool) (kind : ℕ)
    → judge leads (next_kind leads kind) kind ≡ (next_kind leads kind, swallow)
unfolding judge
judge-once true kind = ground (arith, arq_of_next kind, arq_small kind)
judge-once false kind = ground arith

swallow≢take_it : swallow ≢ take_it
swallow≢take_it p = subst (λ v. elim v [ swallow ↦ Unit {0} | _ ↦ ⊥ ]) p tt

resend_last≢take_it : resend_last ≢ take_it
resend_last≢take_it p = subst (λ v. elim v [ resend_last ↦ Unit {0} | _ ↦ ⊥ ]) p tt

not_taken :
    (more : Bool) (x y : ℕ)
    → let r : ℕ × Verdict = if more then (x, resend_last) else (y, swallow) in r.1 ≢ take_it
not_taken true x y = resend_last≢take_it
not_taken false x y = swallow≢take_it

-- Whom each takes: the leader the number of the last token, the others the number behind it.
taken-leads : (last kind : ℕ) → ((judge true last kind).1 ≡ take_it) ↔ (get_arq kind ≡ get_arq last)
unfolding judge
taken-leads last kind = elim (Bool-cases (get_arq kind == get_arq last)) [
  | inl same ↦ ((λ _. (==_iff _ _).0 same), (λ _. rw same refl))
  | inr other ↦ ((λ h. absurd (swallow≢take_it (rw other at h))), (λ h. ground (arith, h)))
]

taken-follows :
    (last kind : ℕ)
    → ((judge false last kind).1 ≡ take_it) ↔ (get_arq kind ≡ suc (get_arq last) % 16)
unfolding judge
taken-follows last kind = (there, back)
  where
    there : (judge false last kind).1 ≡ take_it → get_arq kind ≡ suc (get_arq last) % 16
    there h = elim (Bool-cases (get_arq kind == get_arq last)) [
      | inl same ↦ absurd (
          not_taken (ltb (get_retrans last) (get_retrans kind))
            (set_retrans last (get_retrans kind)) last (rw same at h))
      | inr other ↦ elim (Bool-cases (get_arq kind == suc (get_arq last) % 16)) [
        | inl next ↦ (==_iff _ _).0 next
        | inr none_such ↦ absurd (swallow≢take_it (rw (other, none_such) at h))
      ]
    ]

    back : get_arq kind ≡ suc (get_arq last) % 16 → (judge false last kind).1 ≡ take_it
    back h = ground (arith, h, arq_small last)

-- Of the tokens that come, the leader takes exactly those with the ARQ of the last one, and each of
-- the others exactly those with the next ARQ, modulo 16. A second copy of a token that was taken is
-- swallowed, by the leader and by the others; what the leader sends on is taken by each of the
-- others that took the one before, and is taken again by the leader when it comes back.
pub judge-round :
    (last kind : ℕ)
    → (((judge true last kind).1 ≡ take_it) ↔ (get_arq kind ≡ get_arq last))
      × (((judge false last kind).1 ≡ take_it) ↔ (get_arq kind ≡ suc (get_arq last) % 16))
      × ((leads : Bool) → judge leads (next_kind leads kind) kind ≡ (next_kind leads kind, swallow))
      × (judge false kind (next_kind true kind) ≡ (kind, take_it))
      × (judge true (next_kind true kind) (next_kind true kind) ≡ (next_kind true kind, take_it))
unfolding judge
judge-round last kind = (
  taken-leads last kind,
  taken-follows last kind,
  (λ leads. judge-once leads kind),
  ground (arith, arq_of_next kind, arq_small kind),
  ground arith,
)
