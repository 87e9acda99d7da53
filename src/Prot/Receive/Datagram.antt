-- ===== src/Prot/Receive/Datagram.antt =====
-- daemon/protocol.c: `Prot_handle_bcast` reads back what `Net_queue_bcast` packed.
use in5020_distribuerte_syst.Prelude.{
  ℕ, zero, suc, ◌+◌, ◌-◌, ◌<◌, ◌≡◌, refl, ap, ◌∙◌, true, false, ◌==◌, ==_refl, ltb, List, [], ◌∷◌,
  ◌++◌, length, arith, Option, none, some,
}
use in5020_distribuerte_syst.Prot.Store.{Header, Part, heading, content, filling}
use in5020_distribuerte_syst.Prot.Net.{header_size, padding, pad_of, part_len}
use in5020_distribuerte_syst.Prot.Net.Layout.{size, rest_of, layout, size-pad_of, rest_of-le}
use in5020_distribuerte_syst.Prot.Receive.{from_byte, aligned, unpack_from, unpack}

-- Every packet has data.
unfoldable pub AllFull : List (Header × ℕ) → Type 0
AllFull [] = Unit
AllFull ((h, b) ∷ ps) = (0 < h.data_len) × AllFull ps

from_byte-skip :
    (p : Part) (j : ℕ) (xs : List Part)
    → 0 < part_len p
    → from_byte (part_len p + j) (p ∷ xs) ≡ from_byte j xs
unfolding from_byte
from_byte-skip p j xs l =
    let not_zero : (part_len p + j == 0) ≡ false = ground arith in
    let past : ltb (part_len p + j) (part_len p) ≡ false = ground arith in
    let left : part_len p + j - part_len p ≡ j = omega arith in rw (not_zero, past, left) refl

from_byte-pad_of : (k j : ℕ) (xs : List Part) → from_byte (k + j) (pad_of k ++ xs) ≡ from_byte j xs
from_byte-pad_of zero j xs = ap (λ n. from_byte n xs) (omega arith)
from_byte-pad_of (suc k) j xs = from_byte-skip (filling (suc k)) j xs (omega arith)

-- From the end of a packet, at byte `t`, on, `buf` holds the elements `xs`.
abbrev Holds : ℕ → List Part → List Part → Type 0
Holds t xs buf = (j : ℕ) → from_byte (t + j) buf ≡ from_byte j xs

module _ (h : Header) (b : ℕ) (next buf : List Part) (t : ℕ) where
  abbrev packet_at : List Part
  packet_at = pad_of (padding (header_size + t)) ++ (heading h ∷ content h.data_len b ∷ next)

  at_header :
      Holds t packet_at buf
      → (j : ℕ)
      → from_byte (aligned t + j) buf ≡ from_byte j (heading h ∷ content h.data_len b ∷ next)
  at_header held j =
      ap (λ n. from_byte n buf) (omega arith)
      ∙ held (padding t + j)
      ∙ ap (λ n. from_byte (n + j) packet_at) (omega arith)
      ∙ from_byte-pad_of (padding (header_size + t)) j (heading h ∷ content h.data_len b ∷ next)

  at_content :
      Holds t packet_at buf
      → (j : ℕ)
      → from_byte (aligned t + header_size + j) buf ≡ from_byte j (content h.data_len b ∷ next)
  at_content held j =
      ap (λ n. from_byte n buf) (omega arith)
      ∙ at_header held (header_size + j)
      ∙ from_byte-skip (heading h) j (content h.data_len b ∷ next) (omega arith)

  at_next :
      Holds t packet_at buf → 0 < h.data_len → Holds (aligned t + header_size + h.data_len) next buf
  at_next held l j =
      ap (λ n. from_byte n buf) (omega arith)
      ∙ at_content held (h.data_len + j)
      ∙ from_byte-skip (content h.data_len b) j next l

unpack_from-rest_of :
    (ps : List (Header × ℕ)) (fuel received t : ℕ) (buf : List Part)
    → AllFull ps
    → Holds t (rest_of (header_size + t) ps) buf
    → received ≡ t + size (rest_of (header_size + t) ps)
    → length ps < fuel
    → unpack_from fuel received (aligned t) buf ≡ some ps
unfolding unpack_from rest_of size AllFull
unpack_from-rest_of ps zero received t buf full held e l = absurd (omega arith)
unpack_from-rest_of [] (suc fuel) received t buf full held e l =
    let end : ltb (aligned t) received ≡ false = ground arith in rw end refl
unpack_from-rest_of ((h, b) ∷ ps) (suc fuel) received t buf (one, full) held e l =
    let t' = aligned t + header_size + h.data_len in
    let s = header_size + t in
    let next = rest_of (s + padding s + (header_size + h.data_len)) ps in
    let bytes = size-pad_of (padding s) (heading h ∷ content h.data_len b ∷ next) in
    let at : s + padding s + (header_size + h.data_len) ≡ header_size + t' = omega arith in
    let same : next ≡ rest_of (header_size + t') ps = ap (λ n. rest_of n ps) at in
    let more : ltb (aligned t) received ≡ true = ground (arith, bytes) in
    let first : from_byte (aligned t) buf ≡ some (heading h ∷ content h.data_len b ∷ next) =
      ap (λ n. from_byte n buf) (omega arith) ∙ at_header h b next buf t held 0 in
    let second : from_byte (aligned t + header_size) buf ≡ some (content h.data_len b ∷ next) =
      ap (λ n. from_byte n buf) (omega arith) ∙ at_content h b next buf t held 0 in
    let rest =
      unpack_from-rest_of ps fuel received t' buf full
        (λ j. at_next h b next buf t held one j ∙ ap (from_byte j) same)
        (omega (arith, e, bytes, ap size same)) (omega arith) in
    rw (more, first, second, ==_refl h.data_len, rest) refl

-- A datagram that comes in.
pub read_back : List Part → Option (List (Header × ℕ))
unfolding size
read_back (heading h ∷ buf) = unpack (header_size + size buf) h buf
read_back _ = none

pub read_back-layout :
    (h : Header) (b : ℕ) (ps : List (Header × ℕ))
    → AllFull ((h, b) ∷ ps)
    → read_back (layout ((h, b) ∷ ps)) ≡ some ((h, b) ∷ ps)
unfolding read_back unpack layout rest_of AllFull size
read_back-layout h b ps (one, full) =
    let at : 0 + padding 0 + (header_size + h.data_len) ≡ header_size + h.data_len = omega arith in
    let rest = rest_of (header_size + h.data_len) ps in
    let buf = content h.data_len b ∷ rest in
    let read =
      unpack_from-rest_of ps (header_size + (h.data_len + size rest))
        (header_size + (h.data_len + size rest) - header_size) h.data_len buf full
        (λ j. from_byte-skip (content h.data_len b) j rest one) (omega arith)
        (omega (arith, rest_of-le (header_size + h.data_len) ps)) in
    rw (at, ==_refl h.data_len, read) refl
