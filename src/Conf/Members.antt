-- ===== src/Conf/Members.antt =====
-- A configuration seen as the list of its processes in configuration order.
use in5020_distribuerte_syst.Prelude.{
  ℕ, suc, ◌+◌, ◌≡◌, refl, ◌↔◌, arith, List, [], ◌∷◌, Option, none, some, length, ap, ◌++◌,
  length-append,
}
use in5020_distribuerte_syst.Conf.{
  Proc, Segment, Configuration, sum_procs, num_procs, leader_of, leader, last_of, last, first_id,
  last_id, id_in_seg_from, id_in_seg, id_in_conf_from, id_in_conf,
}
use in5020_distribuerte_syst.Conf.Lookup.{NoneHas}

abbrev pub procs_of : List Segment → List Proc
procs_of [] = []
procs_of (s ∷ ss) = s.procs ++ procs_of ss

abbrev pub members : Configuration → List Proc
members c = procs_of c.segments

sum_procs-length : (ss : List Segment) → sum_procs ss ≡ length (procs_of ss)
unfolding sum_procs
sum_procs-length [] = refl
sum_procs-length (s ∷ ss) = omega (arith, sum_procs-length ss, length-append s.procs (procs_of ss))

first_id-append :
    (ps qs : List Proc) → first_id (ps ++ qs) ≡ (elim ps [ [] ↦ first_id qs | p ∷ r ↦ some p.id ])
first_id-append [] qs = refl
first_id-append (p ∷ ps) qs = refl

leader_of-first : (ss : List Segment) → leader_of ss ≡ first_id (procs_of ss)
unfolding leader_of
leader_of-first [] = refl
leader_of-first (s ∷ ss) = ground (arith, leader_of-first ss, first_id-append s.procs (procs_of ss))

last_id-cons :
    (p : Proc) (qs : List Proc)
    → last_id (p ∷ qs) ≡ (elim (last_id qs) [ some id ↦ some id | none ↦ some p.id ])
last_id-cons p [] = refl
last_id-cons p (q ∷ qs) = ground (arith, last_id-cons q qs)

last_id-append :
    (ps qs : List Proc)
    → last_id (ps ++ qs) ≡ (elim (last_id qs) [ some id ↦ some id | none ↦ last_id ps ])
last_id-append [] qs = ground arith
last_id-append (p ∷ ps) qs =
    ground (arith, last_id-append ps qs, last_id-cons p (ps ++ qs), last_id-cons p ps)

last_of-last : (ss : List Segment) → last_of ss ≡ last_id (procs_of ss)
unfolding last_of
last_of-last [] = refl
last_of-last (s ∷ ss) = ground (arith, last_of-last ss, last_id-append s.procs (procs_of ss))

-- `Conf_num_procs` counts the processes, and `Conf_leader` and `Conf_last` return the first and
-- the last in configuration order, or exit; `Conf_leader` exits exactly when there is none.
pub view_of_members :
    (c : Configuration)
    → (num_procs c ≡ length (members c))
      × (leader c ≡ first_id (members c))
      × (last c ≡ last_id (members c))
      × ((leader c ≡ none) ↔ (members c ≡ []))
unfolding num_procs leader last
view_of_members c = (
  sum_procs-length c.segments,
  leader_of-first c.segments,
  last_of-last c.segments,
  (
    λ h. empty (members c) (ground (arith, leader_of-first c.segments)),
    λ h. ground (arith, leader_of-first c.segments),
  ),
)
  where
    empty : (ps : List Proc) → first_id ps ≡ none → ps ≡ []
    empty [] h = refl
    empty (p ∷ ps) h = cc

-- What the search of the segments may return from index `i` on.
abbrev pub Located : ℕ → List Segment → ℕ → Option ℕ → Type 0
Located i ss id none = NoneHas (procs_of ss) id
Located i ss id (some k) =
    (pre : List Segment) × (s : Segment) × (post : List Segment) × (ss ≡ pre ++ s ∷ post)
    × (k ≡ i + length pre)
    × NoneHas (procs_of pre) id
    × ¬ NoneHas s.procs id

id_in_seg_from-none :
    (j : ℕ) (ps : List Proc) (id : ℕ) → (id_in_seg_from j ps id ≡ none) ↔ NoneHas ps id
unfolding id_in_seg_from
id_in_seg_from-none j [] id = (λ h. tt, λ h. refl)
id_in_seg_from-none j (p ∷ ps) id = (
  λ h. ground (arith, (id_in_seg_from-none (suc j) ps id).0),
  λ h. ground (arith, (id_in_seg_from-none (suc j) ps id).1 h.1),
)

NoneHas-append :
    (ps qs : List Proc) (id : ℕ) → NoneHas ps id → NoneHas qs id → NoneHas (ps ++ qs) id
NoneHas-append [] qs id h k = k
NoneHas-append (p ∷ ps) qs id h k = (h.0, NoneHas-append ps qs id h.1 k)

Located-skip :
    (i : ℕ) (s : Segment) (ss : List Segment) (id : ℕ) (o : Option ℕ)
    → NoneHas s.procs id
    → Located (suc i) ss id o
    → Located i (s ∷ ss) id o
Located-skip i s ss id none h n = NoneHas-append s.procs (procs_of ss) id h n
Located-skip i s ss id (some k) h (pre, t, post, e, at, n, hit) = (
  s ∷ pre,
  t,
  post,
  ap (λ l. s ∷ l) e,
  omega arith,
  NoneHas-append s.procs (procs_of pre) id h n,
  hit,
)

id_in_seg-none : (s : Segment) (id : ℕ) → (id_in_seg s id ≡ none) ↔ NoneHas s.procs id
unfolding id_in_seg
id_in_seg-none s id = id_in_seg_from-none 0 s.procs id

id_in_conf_from-Located :
    (i : ℕ) (ss : List Segment) (id : ℕ) → Located i ss id (id_in_conf_from i ss id)
unfolding id_in_conf_from
id_in_conf_from-Located i [] id = tt
id_in_conf_from-Located i (s ∷ ss) id =
    at_head (id_in_conf_from-Located (suc i) ss id) (id_in_seg s id) refl
  where
    at_head :
        Located (suc i) ss id (id_in_conf_from (suc i) ss id)
        → (o : Option ℕ) → id_in_seg s id ≡ o
        → Located i (s ∷ ss) id (elim o [ some j ↦ some i | none ↦ id_in_conf_from (suc i) ss id ])
    at_head rest none h = Located-skip i s ss id _ ((id_in_seg-none s id).0 h) (rest)
    at_head rest (some j) h =
        ([], s, ss, refl, omega arith, tt, λ n. cc (h, (id_in_seg-none s id).1 n))

-- `Conf_id_in_conf` returns the index of the first segment with a process that has the address,
-- and -1 exactly when no process of the configuration has it.
id_in_conf-Located : (c : Configuration) (id : ℕ) → Located 0 c.segments id (id_in_conf c id)
unfolding id_in_conf
id_in_conf-Located c id = id_in_conf_from-Located 0 c.segments id
