-- ===== src/Prot/Send/Whole.antt =====
-- daemon/protocol.c: the queue of `Send_new_packets`.
use in5020_distribuerte_syst.Prelude.{
  ℕ, zero, suc, ◌-◌, ◌<◌, ◌≡◌, refl, ltb, if◌then◌else◌, List, [], ◌∷◌, length, get_elem?, some,
  arith, Bool-cases, inl, inr,
}
use in5020_distribuerte_syst.Prot.Store.{Element, DownLink, DownQueue}
use in5020_distribuerte_syst.Prot.Send.{waiting}

pub get_elem?-below :
    (xs : List Element) (i : ℕ) → i < length xs → (x : Element) × (get_elem? xs i ≡ some x)
get_elem?-below [] i l = absurd (omega arith)
get_elem?-below (x ∷ xs) zero l = (x, refl)
get_elem?-below (x ∷ xs) (suc i) l = get_elem?-below xs i (omega arith)

-- The queue behind a packet.
abbrev pub next_queue : DownLink → List DownLink → ℕ → DownQueue
next_queue l rest cur =
    if ltb cur (length l.mess)
    then record { links = l ∷ rest; cur_element = cur }
    else record { links = rest; cur_element = 0 }

-- Every message has an element that is not sent yet.
unfoldable pub AllWhole : List DownLink → Type 0
AllWhole [] = Unit
AllWhole (l ∷ ls) = (0 < length l.mess) × AllWhole ls

-- The element to send is one of the first message.
unfoldable pub IsWhole : DownQueue → Type 0
unfolding AllWhole
IsWhole q = elim q.links [ [] ↦ Unit | l ∷ ls ↦ (q.cur_element < length l.mess) × AllWhole ls ]

unfoldable pub remaining : DownQueue → ℕ
unfolding waiting
remaining q = waiting q.links - q.cur_element

pub next_queue-IsWhole :
    (l : DownLink) (rest : List DownLink) (cur : ℕ)
    → cur < length l.mess
    → AllWhole rest
    → IsWhole (next_queue l rest (suc cur))
      × (suc (remaining (next_queue l rest (suc cur))) ≡ waiting (l ∷ rest) - cur)
unfolding IsWhole AllWhole remaining waiting
next_queue-IsWhole l rest cur few all = elim (Bool-cases (ltb (suc cur) (length l.mess))) [
  | inl more ↦ rw more ((ground arith, all), omega arith)
  | inr last ↦ rw last (first rest all, ground arith)
]
  where
    first :
        (rest : List DownLink) → AllWhole rest → IsWhole (record { links = rest; cur_element = 0 })
    first [] h = tt
    first (l ∷ ls) (p, h) = (p, h)
