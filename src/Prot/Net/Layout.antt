-- ===== src/Prot/Net/Layout.antt =====
-- daemon/network.c: where the packets of a datagram lie in it.
use in5020_distribuerte_syst.Prelude.{
  ℕ, zero, suc, ◌+◌, ◌≤◌, ◌≡◌, refl, sym, ap, ◌∙◌, List, [], ◌∷◌, ◌++◌, length, arith,
}
use mathlib.Core.List.{append_assoc}
use in5020_distribuerte_syst.Prot.Store.{Header, Part, heading, content}
use in5020_distribuerte_syst.Prot.Net.{header_size, padding, pad_of, elements, part_len}

unfoldable pub size : List Part → ℕ
size [] = 0
size (p ∷ ps) = part_len p + size ps

-- The elements of the packets that follow `t` bytes.
unfoldable pub rest_of : ℕ → List (Header × ℕ) → List Part
rest_of t [] = []
rest_of t ((h, b) ∷ ps) =
    pad_of (padding t)
    ++ (heading h ∷ content h.data_len b ∷ rest_of (t + padding t + (header_size + h.data_len)) ps)

-- The elements of a datagram with these packets.
unfoldable pub layout : List (Header × ℕ) → List Part
unfolding rest_of
layout ps = rest_of 0 ps

-- The packets whose header and data are elements of a datagram.
unfoldable pub packets_in : List Part → List (Header × ℕ)
packets_in (heading h ∷ content len b ∷ ps) = (h, b) ∷ packets_in ps
packets_in (p ∷ ps) = packets_in ps
packets_in [] = []

size-append : (xs ys : List Part) → size (xs ++ ys) ≡ size xs + size ys
unfolding size
size-append [] ys = omega arith
size-append (x ∷ xs) ys = omega (arith, size-append xs ys)

pub size-pad_of : (k : ℕ) (xs : List Part) → size (pad_of k ++ xs) ≡ k + size xs
unfolding size
size-pad_of zero xs = omega arith
size-pad_of (suc k) xs = refl

-- A packet more comes behind the padding of what is there.
rest_of-append :
    (t : ℕ) (ps : List (Header × ℕ)) (h : Header) (b : ℕ)
    → rest_of t (ps ++ ((h, b) ∷ []))
      ≡ rest_of t ps ++ (pad_of (padding (t + size (rest_of t ps))) ++ elements h b)
unfolding rest_of size
rest_of-append t [] h b = ap (λ n. pad_of (padding n) ++ elements h b) (omega arith)
rest_of-append t ((g, c) ∷ ps) h b =
    let t' = t + padding t + (header_size + g.data_len) in
    let next = rest_of t' ps in
    let bytes = size-pad_of (padding t) (heading g ∷ content g.data_len c ∷ next) in
    let at : t' + size next ≡ t + size (rest_of t ((g, c) ∷ ps)) = omega (arith, bytes) in
    ap (λ xs. pad_of (padding t) ++ (heading g ∷ content g.data_len c ∷ xs))
      (rest_of-append t' ps h b ∙ ap (λ n. next ++ (pad_of (padding n) ++ elements h b)) at)
    ∙ sym (
        append_assoc (pad_of (padding t)) (heading g ∷ content g.data_len c ∷ next)
          (pad_of (padding (t + size (rest_of t ((g, c) ∷ ps)))) ++ elements h b))

packets_in-pad_of : (k : ℕ) (xs : List Part) → packets_in (pad_of k ++ xs) ≡ packets_in xs
unfolding packets_in
packets_in-pad_of zero xs = refl
packets_in-pad_of (suc k) xs = refl

packets_in-rest_of : (t : ℕ) (ps : List (Header × ℕ)) → packets_in (rest_of t ps) ≡ ps
unfolding rest_of packets_in
packets_in-rest_of t [] = refl
packets_in-rest_of t ((h, b) ∷ ps) =
    let t' = t + padding t + (header_size + h.data_len) in
    packets_in-pad_of (padding t) (heading h ∷ content h.data_len b ∷ rest_of t' ps)
    ∙ ap (λ qs. (h, b) ∷ qs) (packets_in-rest_of t' ps)

-- Each packet takes a header at least.
pub rest_of-le : (t : ℕ) (ps : List (Header × ℕ)) → length ps ≤ size (rest_of t ps)
unfolding rest_of size
rest_of-le t [] = omega arith
rest_of-le t ((h, b) ∷ ps) =
    let t' = t + padding t + (header_size + h.data_len) in
    omega (
      arith,
      size-pad_of (padding t) (heading h ∷ content h.data_len b ∷ rest_of t' ps),
      rest_of-le t' ps,
    )

pub packets_in-layout : (ps : List (Header × ℕ)) → packets_in (layout ps) ≡ ps
unfolding layout
packets_in-layout ps = packets_in-rest_of 0 ps

-- The next packet of a datagram that holds these.
pub layout-append :
    (ps : List (Header × ℕ)) (h : Header) (b : ℕ)
    → layout (ps ++ ((h, b) ∷ []))
      ≡ layout ps ++ (pad_of (padding (size (layout ps))) ++ elements h b)
unfolding layout
layout-append ps h b =
    rest_of-append 0 ps h b
    ∙ ap (λ n. rest_of 0 ps ++ (pad_of (padding n) ++ elements h b)) (omega arith)

pub size-behind :
    (xs : List Part) (k : ℕ) (h : Header) (b : ℕ)
    → size (xs ++ (pad_of k ++ elements h b)) ≡ size xs + k + (header_size + h.data_len)
unfolding size
size-behind xs k h b =
    omega (arith, size-append xs (pad_of k ++ elements h b), size-pad_of k (elements h b))

pub layout-le : (ps : List (Header × ℕ)) → length ps ≤ size (layout ps)
unfolding layout
layout-le ps = rest_of-le 0 ps

length-pad_of : (k : ℕ) (xs : List Part) → length xs ≤ length (pad_of k ++ xs)
length-pad_of zero xs = omega arith
length-pad_of (suc k) xs = omega arith

length-rest_of : (t : ℕ) (ps : List (Header × ℕ)) → length ps + length ps ≤ length (rest_of t ps)
unfolding rest_of
length-rest_of t [] = omega arith
length-rest_of t ((h, b) ∷ ps) =
    let t' = t + padding t + (header_size + h.data_len) in
    omega (
      arith,
      length-pad_of (padding t) (heading h ∷ content h.data_len b ∷ rest_of t' ps),
      length-rest_of t' ps,
    )

-- Each packet takes two elements at least.
pub length-layout : (ps : List (Header × ℕ)) → length ps + length ps ≤ length (layout ps)
unfolding layout
length-layout ps = length-rest_of 0 ps
