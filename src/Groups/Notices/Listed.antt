-- ===== src/Groups/Notices/Listed.antt =====
-- daemon/groups.c: what each daemon adds to the virtual-synchrony sets.
use mathlib.Core.List.{Permᴰ, append-nil, append_assoc}
use mathlib.Core.List.Permᴰ as PermD
use mathlib.Core.Bool.{true≢false}
use in5020_distribuerte_syst.Prelude.{
  ℕ, suc, ◌<◌, ◌≡◌, ◌≢◌, refl, sym, ap, ◌∙◌, Bool, true, false, not, ◌==◌, ◌||◌, if◌then◌else◌,
  List, [], ◌∷◌, ◌++◌, Option, none, some, length, length-append, ==_iff, arith, All, gather,
  Bool-cases, ◌⊎◌, inl, inr,
}
use in5020_distribuerte_syst.Prot.Token.{memb_is_equal}
use in5020_distribuerte_syst.Groups.{Name, DaemonMembers, Env, name_dec, is_unknown_memb_id}
use in5020_distribuerte_syst.Groups.Notices.{
  VsSets, extend_last, last_offset, list_members, vs_daemon,
}

abbrev pub flatten : List (List Name) → List Name
flatten = gather (λ s. s)

-- The joiner, once it is left out.
abbrev pub left_out : Option Name → Bool → List Name
left_out none found = []
left_out (some j) false = []
left_out (some j) true = j ∷ []

pub left_out-start : (joiner : Option Name) → left_out joiner false ≡ []
left_out-start none = refl
left_out-start (some j) = refl

list_members-none : (f : Bool) (ns : List Name) → list_members none f ns ≡ (ns, f)
unfolding list_members
list_members-none f [] = refl
list_members-none f (n ∷ ns) = ap (λ r. (n ∷ r.0, r.1)) (list_members-none f ns)

pub list_members-true : (j : Name) (ns : List Name) → list_members (some j) true ns ≡ (ns, true)
unfolding list_members
list_members-true j [] = refl
list_members-true j (n ∷ ns) = ap (λ r. (n ∷ r.0, r.1)) (list_members-true j ns)

list_members-skip :
    (j n : Name) (ns : List Name) → j ≡ n → list_members (some j) false (n ∷ ns) ≡ (ns, true)
unfolding list_members
list_members-skip j n ns p = ground (arith, list_members-true j ns)

list_members-keep :
    (j n : Name) (ns : List Name)
    → j ≢ n
    → list_members (some j) false (n ∷ ns)
      ≡ (n ∷ (list_members (some j) false ns).0, (list_members (some j) false ns).1)
unfolding list_members
list_members-keep j n ns p = ground arith

-- What is left out is the joiner, where it is found.
pub list_members-perm :
    (joiner : Option Name) (f : Bool) (ns : List Name)
    → Permᴰ
        (ns ++ left_out joiner f)
        (left_out joiner (list_members joiner f ns).1 ++ (list_members joiner f ns).0)
unfolding list_members
list_members-perm none f ns = rw (list_members-none f ns, append-nil ns) (PermD.refl ns)
list_members-perm (some j) true ns = rw (list_members-true j ns) (PermD.append_comm ns (j ∷ []))
list_members-perm (some j) false [] = Permᴰ.nil
list_members-perm (some j) false (n ∷ ns) =
    let ih = list_members-perm (some j) false ns in
    elim (name_dec j n) [
      | yes p ↦ rw (append-nil ns, list_members-skip j n ns p) (Permᴰ.cons (sym p) (PermD.refl ns))
      | no q ↦
          rw (list_members-keep j n ns q)
            (Permᴰ.trans (Permᴰ.cons refl ih) (PermD.symm (PermD.middle n _ _)))
    ]

-- A joiner that is not found is not there.
pub list_members-missed :
    (j : Name) (ns : List Name) → (list_members (some j) false ns).1 ≡ false → All (λ n. j ≢ n) ns
unfolding list_members
list_members-missed j [] h = tt
list_members-missed j (n ∷ ns) h = elim (name_dec j n) [
  | yes p ↦ absurd (true≢false (sym (ap (λ r. r.1) (list_members-skip j n ns p)) ∙ h))
  | no q ↦ (q, list_members-missed j ns (sym (ap (λ r. r.1) (list_members-keep j n ns q)) ∙ h))
]

pub flatten-snoc :
    (ss : List (List Name)) (s : List Name) → flatten (ss ++ s ∷ []) ≡ flatten ss ++ s
flatten-snoc [] s = append-nil s
flatten-snoc (t ∷ ss) s = ap (λ l. t ++ l) (flatten-snoc ss s) ∙ sym (append_assoc t (flatten ss) s)

flatten-extend :
    (ss : List (List Name)) (ns : List Name)
    → 0 < length ss
    → flatten (extend_last ss ns) ≡ flatten ss ++ ns
flatten-extend [] ns h = absurd (omega arith)
flatten-extend (s ∷ []) ns h = rw (append-nil (s ++ ns), append-nil s) refl
flatten-extend (s ∷ t ∷ ss) ns h =
    ap (λ l. s ++ l) (flatten-extend (t ∷ ss) ns (omega arith))
    ∙ sym (append_assoc s (flatten (t ∷ ss)) ns)

length-extend : (ss : List (List Name)) (ns : List Name) → length (extend_last ss ns) ≡ length ss
length-extend [] ns = refl
length-extend (s ∷ []) ns = refl
length-extend (s ∷ t ∷ ss) ns = ap suc (length-extend (t ∷ ss) ns)

-- A set that the next daemon can go into, or none yet.
abbrev pub IsOpen : VsSets → Type 0
IsOpen v = (is_unknown_memb_id v.memb_id ≡ true) ⊎ (0 < length v.sets)

abbrev next_sets : DaemonMembers → VsSets → List (List Name)
next_sets d v =
    if is_unknown_memb_id v.memb_id || not (memb_is_equal v.memb_id d.memb_id)
    then v.sets ++ [] ∷ []
    else v.sets

next_sets-IsOpen : (d : DaemonMembers) (v : VsSets) → IsOpen v → 0 < length (next_sets d v)
next_sets-IsOpen d v o =
    elim (Bool-cases (is_unknown_memb_id v.memb_id || not (memb_is_equal v.memb_id d.memb_id))) [
      | inl n ↦ rw n (omega (arith, length-append v.sets ([] ∷ [])))
      | inr n ↦ elim o [
        | inl u ↦
            absurd (true≢false (sym (ap (λ b. b || not (memb_is_equal v.memb_id d.memb_id)) u) ∙ n))
        | inr l ↦ rw n l
      ]
    ]

flatten-next : (d : DaemonMembers) (v : VsSets) → flatten (next_sets d v) ≡ flatten v.sets
flatten-next d v =
    elim (Bool-cases (is_unknown_memb_id v.memb_id || not (memb_is_equal v.memb_id d.memb_id))) [
      | inl n ↦ rw n (flatten-snoc v.sets [] ∙ append-nil (flatten v.sets))
      | inr n ↦ rw n refl
    ]

-- Another daemon: what it lists goes to the sets.
pub record Goes (e : Env) (joiner : Option Name) (d : DaemonMembers) (v v' : VsSets) : Type 0 where
  pub found : v'.found_joiner ≡ (list_members joiner v.found_joiner d.members).1
  pub opened : 0 < length v'.sets
  pub listed : flatten v'.sets ≡ flatten v.sets ++ (list_members joiner v.found_joiner d.members).0
  pub offset : d.proc_id ≢ e.my.id → v'.offset ≡ v.offset

-- What a round makes of the sets, but for the offset.
abbrev went : Option Name → DaemonMembers → VsSets → ℕ → VsSets
went joiner d v offset = record {
  memb_id =
      if is_unknown_memb_id v.memb_id || not (memb_is_equal v.memb_id d.memb_id)
      then d.memb_id
      else v.memb_id;
  sets = extend_last (next_sets d v) (list_members joiner v.found_joiner d.members).0;
  offset = offset;
  found_joiner = (list_members joiner v.found_joiner d.members).1;
}

went-Goes :
    (e : Env) (joiner : Option Name) (d : DaemonMembers) (v : VsSets) (offset : ℕ)
    → IsOpen v
    → (d.proc_id ≢ e.my.id → offset ≡ v.offset)
    → Goes e joiner d v (went joiner d v offset)
went-Goes e joiner d v offset o same = record {
  found = refl;
  opened =
      rw (length-extend (next_sets d v) (list_members joiner v.found_joiner d.members).0)
        (next_sets-IsOpen d v o);
  listed =
      flatten-extend (next_sets d v) _ (next_sets-IsOpen d v o)
      ∙ ap (λ l. l ++ (list_members joiner v.found_joiner d.members).0) (flatten-next d v);
  offset = same;
}

pub vs_daemon-Goes :
    (e : Env) (joiner : Option Name) (d : DaemonMembers) (v : VsSets)
    → IsOpen v
    → (d.proc_id ≡ e.my.id → v.offset ≡ 0)
    → (v' : VsSets) × (vs_daemon e joiner d v ≡ some v') × Goes e joiner d v v'
unfolding vs_daemon
vs_daemon-Goes e joiner d v o z = elim (Bool-cases (d.proc_id == e.my.id)) [
  | inl mine ↦
      let same : d.proc_id ≡ e.my.id = (==_iff d.proc_id e.my.id).0 mine in
      (
        went joiner d v (last_offset (next_sets d v)),
        rw (mine, z same) refl,
        went-Goes e joiner d v _ o (λ ne. absurd (ne same)),
      )
  | inr other ↦ (went joiner d v v.offset, rw other refl, went-Goes e joiner d v _ o (λ _. refl))
]
