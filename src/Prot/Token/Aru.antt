-- ===== src/Prot/Token/Aru.antt =====
-- daemon/protocol.c: the aru of a token, and the requests that a daemon adds.
use in5020_distribuerte_syst.Prelude.{
  ℕ, zero, suc, ◌+◌, ◌-◌, ◌/◌, ◌<◌, ◌≤◌, ◌≡◌, ◌⊎◌, refl, Bool, true, false, ◌&&◌, ◌||◌, ◌==◌, ltb,
  if◌then◌else◌, List, [], ◌∷◌, ◌++◌, length, arith, Bool-cases, inl, inr, ℤ, pos, negsuc,
}
use in5020_distribuerte_syst.Prot.Store.{Store, TokenHeader, RingRtr, MembershipId, pack_entry}
use in5020_distribuerte_syst.Prot.Token.{
  Answers, rtr_bytes, missing_from, my_requests, at_most_ℕ, token_body_size, retrans_allowed,
  is_number, next_aru,
}

-- The aru that a daemon puts on the token is never above its own; it is its own, or the one that
-- came with the process that set it; and where it is lower than the one that came, the daemon signs
-- it.
pub next_aru_lem :
    (t : TokenHeader) (my_id my_aru highest_seq : ℕ) (set_aru : ℤ)
    → let x = next_aru t my_id my_aru highest_seq set_aru in
      (x.0 ≤ my_aru)
      × ((x.0 ≡ my_aru) ⊎ ((x.0 ≡ t.aru) × (x.1 ≡ t.aru_last_id)))
      × (x.0 < t.aru → x.1 ≡ my_id)
unfolding next_aru
next_aru_lem t my_id my_aru highest_seq set_aru =
    go (is_number set_aru t.aru || ((t.aru_last_id == my_id) || (t.aru == t.seq)))
      (ltb my_aru t.aru) refl
  where
    go :
        (again lower : Bool)
        → ltb my_aru t.aru ≡ lower
        → let x : ℕ × ℕ × ℤ =
            if again
            then (my_aru, my_id, if ltb my_aru highest_seq then pos my_aru else negsuc 0)
            else if lower
            then (my_aru, my_id, pos my_aru)
            else (t.aru, t.aru_last_id, negsuc 0) in
          (x.0 ≤ my_aru)
          × ((x.0 ≡ my_aru) ⊎ ((x.0 ≡ t.aru) × (x.1 ≡ t.aru_last_id)))
          × (x.0 < t.aru → x.1 ≡ my_id)
    go true lower e = (omega arith, inl refl, (λ h. refl))
    go false true e = (omega arith, inl refl, (λ h. refl))
    go false false e = (ground arith, inr (refl, refl), (λ h. absurd (omega (arith, h))))

missing_from-length : (n i : ℕ) (exist : ℕ → ℕ) → length (missing_from n i exist) ≤ n
unfolding missing_from
missing_from-length zero i exist = omega arith
missing_from-length (suc n) i exist = ground (arith, missing_from-length n (suc i) exist)

rtr_bytes-append : (xs ys : List RingRtr) → rtr_bytes (xs ++ ys) ≡ rtr_bytes xs + rtr_bytes ys
unfolding rtr_bytes
rtr_bytes-append [] ys = omega arith
rtr_bytes-append (r ∷ xs) ys = omega (arith, rtr_bytes-append xs ys)

-- Within the body, what wraps comes out negative.
retrans_allowed-fits :
    (new_ptr : ℕ)
    → new_ptr ≤ token_body_size
    → retrans_allowed new_ptr ≡ (token_body_size - new_ptr - 16) / 4
unfolding retrans_allowed
retrans_allowed-fits new_ptr l = ground arith

my_requests-bounds :
    (s : Store) (memb_id : MembershipId) (kept : List RingRtr) (a : Answers)
    → rtr_bytes kept ≤ token_body_size
    → rtr_bytes (my_requests s memb_id kept a) ≤ token_body_size
unfolding my_requests rtr_bytes
my_requests-bounds s memb_id kept a l =
    let allowed = retrans_allowed (rtr_bytes kept) in
    elim (Bool-cases (ltb s.my_aru s.highest_seq && ltb 1 allowed)) [
      | inl more ↦
          let n = at_most_ℕ allowed (s.highest_seq - s.my_aru) in
          let few = missing_from-length n (suc s.my_aru) s.exist in
          let new : RingRtr = record {
            memb_id = memb_id;
            proc_id = a.proc_id;
            seg_index = a.seg_index;
            seqs = missing_from n (suc s.my_aru) s.exist;
          } in
          let room : 1 < allowed = ground arith in
          let short : n ≤ allowed = ground arith in
          let fits = retrans_allowed-fits (rtr_bytes kept) l in
          rw more (omega (arith, rtr_bytes-append kept (new ∷ []), few, room, short, fits, l))
      | inr none_more ↦ rw none_more l
    ]

-- Each is the number of a packet that is not there, behind `low` and up to `high`.
unfoldable pub AllMissing : Store → (low high : ℕ) → List ℕ → Type 0
AllMissing s low high [] = Unit
AllMissing s low high (q ∷ qs) =
    ((low < q) × (q ≤ high) × (s.exist (pack_entry q) ≡ 0)) × AllMissing s low high qs

missing_from-AllMissing :
    (s : Store) (n i low high : ℕ)
    → low < i
    → i + n ≤ suc high
    → AllMissing s low high (missing_from n i s.exist)
unfolding missing_from AllMissing
missing_from-AllMissing s zero i low high l m = tt
missing_from-AllMissing s (suc n) i low high l m =
    let rest = missing_from-AllMissing s n (suc i) low high (omega arith) (omega arith) in
    elim (Bool-cases (s.exist (pack_entry i) == 0)) [
      | inl none_there ↦ rw none_there ((l, omega arith, ground arith), rest)
      | inr there ↦ rw there rest
    ]

my_requests-AllMissing :
    (s : Store) (memb_id : MembershipId) (kept : List RingRtr) (a : Answers)
    → (my_requests s memb_id kept a ≡ kept)
      ⊎ ((r : RingRtr) × (my_requests s memb_id kept a ≡ kept ++ (r ∷ []))
          × AllMissing s s.my_aru s.highest_seq r.seqs)
unfolding my_requests
my_requests-AllMissing s memb_id kept a =
    let allowed = retrans_allowed (rtr_bytes kept) in
    let n = at_most_ℕ allowed (s.highest_seq - s.my_aru) in
    elim (Bool-cases (ltb s.my_aru s.highest_seq && ltb 1 allowed)) [
      | inl more ↦ inr (
        record {
          memb_id = memb_id;
          proc_id = a.proc_id;
          seg_index = a.seg_index;
          seqs = missing_from n (suc s.my_aru) s.exist;
        },
        rw more refl,
        missing_from-AllMissing s n (suc s.my_aru) s.my_aru s.highest_seq (omega arith)
            (ground arith),
      )
      | inr none_more ↦ inl (rw none_more refl)
    ]

-- On a machine with a size_t of 64 bits and an int of 32, where the requests of the other rings fit
-- the body of a token, so do all, also where the difference of sizes wraps: behind those of the
-- other rings comes nothing, or one list of packets that the daemon misses, above its aru and up to
-- the highest number.
pub my_requests_lem :
    (s : Store) (memb_id : MembershipId) (kept : List RingRtr) (a : Answers)
    → rtr_bytes kept ≤ token_body_size
    → (rtr_bytes (my_requests s memb_id kept a) ≤ token_body_size)
      × ((my_requests s memb_id kept a ≡ kept)
          ⊎ ((r : RingRtr) × (my_requests s memb_id kept a ≡ kept ++ (r ∷ []))
              × AllMissing s s.my_aru s.highest_seq r.seqs))
my_requests_lem s memb_id kept a l =
    (my_requests-bounds s memb_id kept a l, my_requests-AllMissing s memb_id kept a)
