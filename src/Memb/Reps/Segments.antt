-- ===== src/Memb/Reps/Segments.antt =====
-- What `Insert_rep` keeps of the representatives of a segment.
use in5020_distribuerte_syst.Prelude.{
  ℕ, zero, suc, ◌≡◌, ◌≢◌, ◌⊎◌, ◌≤◌, refl, ap, Bool, true, false, ◌&&◌, ◌==◌, Bool-cases, inl, inr,
  List, [], ◌∷◌, some, take, set, length, ◌++◌, arith, length-set, take-set,
}
use in5020_distribuerte_syst.Conf.{Proc, proc_by_id}
use in5020_distribuerte_syst.Memb.Reps.{
  RepInfo, RepsInfo, Pass, go_on, return, behind, active, max_reps, seg_rep, ring_rep,
  potential_rep, pass_potential, pass_seg, pass_ring, pass_of, finish, insert_rep,
}

-- Two entries of one segment are of processes that are known to lead it, and of different ones.
abbrev pub Apart : RepInfo → RepInfo → Type 0
Apart x y = x.seg_index ≡ y.seg_index → (x.kind ≢ 0) × (y.kind ≢ 0) × (x.proc_id ≢ y.proc_id)

abbrev pub AllApart : RepInfo → List RepInfo → Type 0
AllApart x [] = Unit
AllApart x (y ∷ ys) = Apart x y × AllApart x ys

-- A potential representative is alone in its segment, and no process represents a segment twice.
abbrev pub IsApart : List RepInfo → Type 0
IsApart [] = Unit
IsApart (x ∷ xs) = AllApart x xs × IsApart xs

abbrev pub AllKinds : List RepInfo → Type 0
AllKinds [] = Unit
AllKinds (x ∷ xs) = (x.kind ≤ 2) × AllKinds xs

-- What a pass may do for a new entry `rep`.
abbrev pub PassOk : List RepInfo → RepInfo → ℕ → ℕ → Pass → Type 0
PassOk xs rep n l go_on = AllApart rep xs
PassOk xs rep n l (return b ys) =
    (length ys ≡ l)
    × IsApart (take n ys)
    × AllKinds (take n ys)
    × ((x : RepInfo) → AllApart x xs → AllApart x (take n ys))

behind-ok :
    (x : RepInfo) (xs : List RepInfo) (rep : RepInfo) (n l : ℕ) (o : Pass)
    → Apart rep x
    → x.kind ≤ 2
    → AllApart x xs
    → PassOk xs rep n l o
    → PassOk (x ∷ xs) rep (suc n) (suc l) (behind x o)
behind-ok x xs rep n l go_on h k a ok = (h, ok)
behind-ok x xs rep n l (return b ys) h k a (len, apart, kinds, keep) =
    (ap suc len, (keep x a, apart), (k, kinds), λ y c. (c.0, keep y c.1))

-- An entry that is changed in its place: only a potential one may get another process.
abbrev Replaces : RepInfo → RepInfo → Type 0
Replaces x x' =
    (x'.seg_index ≡ x.seg_index)
    × (x'.kind ≢ 0)
    × (x'.kind ≤ 2)
    × ((x.kind ≡ 0) ⊎ (x'.proc_id ≡ x.proc_id))

AllApart-replaced :
    (x x' : RepInfo) (ys : List RepInfo) → Replaces x x' → AllApart x ys → AllApart x' ys
AllApart-replaced x x' [] r a = tt
AllApart-replaced x x' (y ∷ ys) r (h, a) = (λ e. ground (arith, h), AllApart-replaced x x' ys r a)

Apart-replaced : (y x x' : RepInfo) → Replaces x x' → Apart y x → Apart y x'
Apart-replaced y x x' r h e = ground (arith, h)

replaced-ok :
    (b : Bool) (x x' : RepInfo) (n : ℕ) (xs : List RepInfo) (rep : RepInfo)
    → Replaces x x'
    → IsApart (x ∷ take n xs)
    → AllKinds (x ∷ take n xs)
    → PassOk (x ∷ take n xs) rep (suc n) (suc (length xs)) (return b (x' ∷ xs))
replaced-ok b x x' n xs rep r a k = (
  refl,
  (AllApart-replaced x x' (take n xs) r a.0, a.1),
  (r.2, k.1),
  λ y c. (Apart-replaced y x x' r c.0, c.1),
)

module _ (p : Proc) (rep : RepInfo) (e : rep.seg_index ≡ p.seg_index) where
  pass_potential-ok :
      (n : ℕ) (xs : List RepInfo)
      → IsApart (take n xs)
      → AllKinds (take n xs)
      → PassOk (take n xs) rep n (length xs) (pass_potential n xs p)
  unfolding pass_potential
  pass_potential-ok zero xs a k = tt
  pass_potential-ok (suc n) [] a k = tt
  pass_potential-ok (suc n) (x ∷ xs) a k = elim (Bool-cases (x.seg_index == p.seg_index)) [
    | inl h ↦ rw h (refl, a, k, λ y b. b)
    | inr h ↦ rw h (
        behind-ok x (take n xs) rep n (length xs) _ (λ s. absurd (ground arith)) k.0 a.0
          (pass_potential-ok n xs a.1 k.1))
  ]

module _ (p : Proc) (rep : RepInfo) (e : rep.seg_index ≡ p.seg_index) (i : rep.proc_id ≡ p.id)
    (ne : rep.kind ≢ 0) where
  pass_seg-ok :
      (n : ℕ) (xs : List RepInfo)
      → IsApart (take n xs)
      → AllKinds (take n xs)
      → PassOk (take n xs) rep n (length xs) (pass_seg n xs p)
  unfolding pass_seg
  pass_seg-ok zero xs a k = tt
  pass_seg-ok (suc n) [] a k = tt
  pass_seg-ok (suc n) (x ∷ xs) a k =
      let on = λ (h : Apart rep x).
        behind-ok x (take n xs) rep n (length xs) _ h k.0 a.0 (pass_seg-ok n xs a.1 k.1) in
      elim (Bool-cases (x.seg_index == p.seg_index)) [
        | inr h ↦ rw h (on (λ s. absurd (ground arith)))
        | inl h ↦ elim (Bool-cases (x.kind == potential_rep)) [
          | inl h0 ↦
              rw (h, h0)
                (replaced-ok true x _ n xs rep
                  (ground arith, ground arith, ground arith, inl (ground arith)) a k)
          | inr h0 ↦ elim (Bool-cases (x.kind == seg_rep)) [
            | inl h1 ↦ elim (Bool-cases (x.proc_id == p.id)) [
              | inl h2 ↦ rw (h, h0, h1, h2) (refl, a, k, λ y b. b)
              | inr h2 ↦ rw (h, h0, h1, h2) (on (λ s. ground arith))
            ]
            | inr h1 ↦ elim (Bool-cases ((x.kind == ring_rep) && (x.proc_id == p.id))) [
              | inl h2 ↦
                  rw (h, h0, h1, h2)
                    (replaced-ok true x _ n xs rep
                      (ground arith, ground arith, ground arith, inr refl) a k)
              | inr h2 ↦ rw (h, h0, h1, h2) (on (λ s. ground arith))
            ]
          ]
        ]
      ]

  pass_ring-ok :
      (n : ℕ) (xs : List RepInfo)
      → IsApart (take n xs)
      → AllKinds (take n xs)
      → PassOk (take n xs) rep n (length xs) (pass_ring n xs p)
  unfolding pass_ring
  pass_ring-ok zero xs a k = tt
  pass_ring-ok (suc n) [] a k = tt
  pass_ring-ok (suc n) (x ∷ xs) a k =
      let on = λ (h : Apart rep x).
        behind-ok x (take n xs) rep n (length xs) _ h k.0 a.0 (pass_ring-ok n xs a.1 k.1) in
      elim (Bool-cases (x.seg_index == p.seg_index)) [
        | inr h ↦ rw h (on (λ s. absurd (ground arith)))
        | inl h ↦ elim (Bool-cases (x.kind == potential_rep)) [
          | inl h0 ↦
              rw (h, h0)
                (replaced-ok true x _ n xs rep
                  (ground arith, ground arith, ground arith, inl (ground arith)) a k)
          | inr h0 ↦ elim (Bool-cases (x.kind == seg_rep)) [
            | inl h1 ↦ elim (Bool-cases (x.proc_id == p.id)) [
              | inl h2 ↦
                  rw (h, h0, h1, h2)
                    (replaced-ok true x _ n xs rep
                      (ground arith, ground arith, ground arith, inr refl) a k)
              | inr h2 ↦ rw (h, h0, h1, h2) (on (λ s. ground arith))
            ]
            | inr h1 ↦ elim (Bool-cases ((x.kind == ring_rep) && (x.proc_id == p.id))) [
              | inl h2 ↦ rw (h, h0, h1, h2) (refl, a, k, λ y b. b)
              | inr h2 ↦ rw (h, h0, h1, h2) (on (λ s. ground arith))
            ]
          ]
        ]
      ]

-- The array has 25 places, and the representatives in it are apart.
pub record IsValid (r : RepsInfo) : Type 0 where
  pub room : length r.reps ≡ max_reps
  pub fits : r.num_reps ≤ max_reps
  pub apart : IsApart (active r)
  pub kinds : AllKinds (active r)

AllApart-append :
    (x y : RepInfo) (xs : List RepInfo) → AllApart x xs → Apart x y → AllApart x (xs ++ y ∷ [])
AllApart-append x y [] a h = (h, tt)
AllApart-append x y (z ∷ xs) a h = (a.0, AllApart-append x y xs a.1 h)

IsApart-append :
    (xs : List RepInfo) (y : RepInfo) → IsApart xs → AllApart y xs → IsApart (xs ++ y ∷ [])
IsApart-append [] y a h = (tt, tt)
IsApart-append (x ∷ xs) y a h =
    (AllApart-append x y xs a.0 (λ e. ground (arith, h.0)), IsApart-append xs y a.1 h.1)

AllKinds-append :
    (xs : List RepInfo) (y : RepInfo) → AllKinds xs → y.kind ≤ 2 → AllKinds (xs ++ y ∷ [])
AllKinds-append [] y a h = (h, tt)
AllKinds-append (x ∷ xs) y a h = (a.0, AllKinds-append xs y a.1 h)

grown :
    (r : RepsInfo) (rep : RepInfo)
    → IsValid r
    → (r.num_reps == max_reps) ≡ false
    → take (suc r.num_reps) (set r.reps r.num_reps rep) ≡ active r ++ rep ∷ []
grown r rep v h = take-set r.num_reps r.reps rep (ground arith)

finish-IsValid :
    (r : RepsInfo) (rep : RepInfo) (o : Pass)
    → rep.kind ≤ 2
    → IsValid r
    → PassOk (active r) rep r.num_reps (length r.reps) o
    → IsValid (finish r rep o).1
unfolding finish
finish-IsValid r rep (return b ys) k v (len, apart, kinds, keep) = record {
  room = omega arith;
  fits = v.fits;
  apart = apart;
  kinds = kinds;
}
finish-IsValid r rep go_on k v ok = elim (Bool-cases (r.num_reps == max_reps)) [
  | inl h ↦ rw h v
  | inr h ↦ rw h (record {
    room = omega (arith, length-set r.reps r.num_reps rep);
    fits = ground arith;
    apart = rw (grown r rep v h) (IsApart-append (active r) rep v.apart ok);
    kinds = rw (grown r rep v h) (AllKinds-append (active r) rep v.kinds k);
  })
]

-- The representative names a process of the configuration by its id, and that process's segment.
abbrev pub IsOwn : List Proc → RepInfo → Type 0
IsOwn table rep =
    (k : ℕ) × (p : Proc) × (proc_by_id table rep.proc_id ≡ some (k, p))
    × (rep.proc_id ≡ p.id)
    × (rep.seg_index ≡ p.seg_index)

pass_of-ok :
    (r : RepsInfo) (rep : RepInfo) (p : Proc)
    → rep.kind ≤ 2
    → rep.proc_id ≡ p.id
    → rep.seg_index ≡ p.seg_index
    → IsValid r
    → (o : Pass) × (pass_of r rep p ≡ some o) × PassOk (active r) rep r.num_reps (length r.reps) o
unfolding pass_of
pass_of-ok r rep p k i e v = elim (Bool-cases (rep.kind == potential_rep)) [
  | inl h0 ↦ (_, rw h0, pass_potential-ok p rep e r.num_reps r.reps v.apart v.kinds)
  | inr h0 ↦ elim (Bool-cases (rep.kind == seg_rep)) [
    | inl h1 ↦
        (_, rw (h0, h1), pass_seg-ok p rep e i (ground arith) r.num_reps r.reps v.apart v.kinds)
    | inr h1 ↦ (
      _,
      rw (h0, h1) (ground arith),
      pass_ring-ok p rep e i (ground arith) r.num_reps r.reps v.apart v.kinds,
    )
  ]
]

insert_rep-found :
    (table : List Proc) (r : RepsInfo) (rep : RepInfo) (k : ℕ) (p : Proc) (o : Pass)
    → proc_by_id table rep.proc_id ≡ some (k, p)
    → pass_of r rep p ≡ some o
    → insert_rep table r rep ≡ some (finish r rep o)
unfolding insert_rep
insert_rep-found table r rep k p o e f = rw (e, insert_rep, f)

-- On representatives that are kept apart, a potential one alone in its segment and no process
-- twice, `Insert_rep` of one with a known type that names its own segment does not exit, and keeps
-- them apart.
pub insert_rep-IsValid :
    (table : List Proc) (r : RepsInfo) (rep : RepInfo)
    → IsOwn table rep
    → rep.kind ≤ 2
    → IsValid r
    → (b : Bool) × (r' : RepsInfo) × (insert_rep table r rep ≡ some (b, r')) × IsValid r'
insert_rep-IsValid table r rep (j, p, e, i, s) k v =
    let (o, f, ok) = pass_of-ok r rep p k i s v in
    (
      (finish r rep o).0,
      (finish r rep o).1,
      insert_rep-found table r rep j p o e f,
      finish-IsValid r rep o k v ok,
    )
