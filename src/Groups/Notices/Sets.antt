-- ===== src/Groups/Notices/Sets.antt =====
-- daemon/groups.c: the virtual-synchrony sets of a group are its members, each once.
use mathlib.Core.List.{Permᴰ, append-nil, append_assoc}
use mathlib.Core.List.Permᴰ as PermD
use mathlib.Core.Bool.{true≢false}
use in5020_distribuerte_syst.Prelude.{
  ℕ, ◌≡◌, ◌≢◌, refl, sym, ap, ◌∙◌, subst, false, List, [], ◌∷◌, ◌++◌, Option, none, some,
  >>=-Returns, >>=-some, All, All-perm, All-both, All-append, All-of, Apart, Apart-perm,
  gather-perm, rotate-perm, Bool-cases, inl, inr,
}
use in5020_distribuerte_syst.Groups.{
  Name, Group, DaemonMembers, Env, Notice, unknown_memb_id, AllListed,
}
use in5020_distribuerte_syst.Groups.Notices.{
  VsSets, all_members, list_members, vs_daemons, add_joiner, build_memb_vs_buf,
  send_heavyweight_join, send_heavyweight_memb,
}
use in5020_distribuerte_syst.Groups.Notices.Listed.{
  flatten, left_out, left_out-start, list_members-true, list_members-perm, list_members-missed,
  flatten-snoc, IsOpen, Goes, vs_daemon-Goes,
}

regroup-perm :
    (ms as' ls fs ls' ns : List Name)
    → Permᴰ (ms ++ ls) (ls' ++ ns)
    → Permᴰ ((ms ++ as') ++ (ls ++ fs)) (as' ++ (ls' ++ (fs ++ ns)))
regroup-perm ms as' ls fs ls' ns p =
    let inner : Permᴰ (ms ++ (ls ++ fs)) (ls' ++ (fs ++ ns)) =
      subst (λ l. Permᴰ l (ls' ++ (fs ++ ns))) (append_assoc ms ls fs)
        (Permᴰ.trans (PermD.append_right fs p) (
          subst (λ l. Permᴰ l (ls' ++ (fs ++ ns))) (sym (append_assoc ls' ns fs))
            (PermD.append_left ls' (PermD.append_comm ns fs)))) in
    subst (λ l. Permᴰ l (as' ++ (ls' ++ (fs ++ ns)))) (sym (append_assoc ms as' (ls ++ fs)))
      (Permᴰ.trans (rotate-perm ms as' (ls ++ fs)) (PermD.append_left as' inner))

-- A joiner that is not left out was not among the members.
abbrev Misses : Option Name → VsSets → VsSets → List Name → Type 0
Misses none v v' ns = Unit
Misses (some j) v v' ns = v'.found_joiner ≡ false → (v.found_joiner ≡ false) × All (λ n. j ≢ n) ns

Misses-cons :
    (e : Env) (joiner : Option Name) (d : DaemonMembers) (v v1 v2 : VsSets) (ns : List Name)
    → Goes e joiner d v v1
    → Misses joiner v1 v2 ns
    → Misses joiner v v2 (d.members ++ ns)
Misses-cons e none d v v1 v2 ns g m = tt
Misses-cons e (some j) d v v1 v2 ns g m = λ h.
    let missed : (list_members (some j) v.found_joiner d.members).1 ≡ false =
      sym g.found ∙ (m h).0 in
    elim (Bool-cases v.found_joiner) [
      | inl found ↦ absurd (
          true≢false (
            sym (ap (λ r. r.1) (list_members-true j d.members))
            ∙ subst (λ b. (list_members (some j) b d.members).1 ≡ false) found missed))
      | inr lost ↦ (
        lost,
        All-append _ d.members ns
            (list_members-missed j d.members
              (subst (λ b. (list_members (some j) b d.members).1 ≡ false) lost missed))
            (m h).1,
      )
    ]

-- Where the daemons are different, none of them exits, and they list what they have, but for the
-- joiner.
vs_daemons-lists :
    (e : Env) (joiner : Option Name) (ds : List DaemonMembers) (v : VsSets)
    → IsOpen v
    → Apart (λ d. d.proc_id) ds
    → All (λ d. d.proc_id ≡ e.my.id → v.offset ≡ 0) ds
    → (v' : VsSets) × (vs_daemons e joiner ds v ≡ some v')
      × Permᴰ
          (all_members ds ++ (left_out joiner v.found_joiner ++ flatten v.sets))
          (left_out joiner v'.found_joiner ++ flatten v'.sets)
      × Misses joiner v v' (all_members ds)
unfolding vs_daemons
vs_daemons-lists e none [] v o a z = (v, refl, PermD.refl _, tt)
vs_daemons-lists e (some j) [] v o a z = (v, refl, PermD.refl _, λ h. (h, tt))
vs_daemons-lists e joiner (d ∷ ds) v o a z =
    let (v1, r, g) = vs_daemon-Goes e joiner d v o z.0 in
    let (v2, r2, p, m) =
      vs_daemons-lists e joiner ds v1 (inr g.opened) a.1
        (All-both ds a.0 z.1 λ c ne h same. g.offset (λ mine. ne (mine ∙ sym same)) ∙ h same) in
    let listed = list_members joiner v.found_joiner d.members in
    let q : Permᴰ (all_members (d ∷ ds) ++ (left_out joiner v.found_joiner ++ flatten v.sets))
        (all_members ds ++ (left_out joiner v1.found_joiner ++ flatten v1.sets)) =
      rw (g.found, g.listed)
        (regroup-perm d.members (all_members ds) (left_out joiner v.found_joiner) (flatten v.sets)
          (left_out joiner listed.1) listed.0
          (list_members-perm joiner v.found_joiner d.members)) in
    (v2, rw r r2, Permᴰ.trans q p, Misses-cons e joiner d v v1 v2 (all_members ds) g m)

-- A joiner is a member.
unfoldable pub IsJoiner : Option Name → List Name → Type 0
IsJoiner none ns = Unit
IsJoiner (some j) ns = ¬ All (λ n. j ≢ n) ns

add_joiner-lists :
    (joiner : Option Name) (v0 v : VsSets) (vs ns : List Name)
    → Permᴰ (vs ++ []) (left_out joiner v.found_joiner ++ flatten v.sets)
    → Permᴰ vs ns
    → Misses joiner v0 v vs
    → IsJoiner joiner ns
    → (v' : VsSets) × (add_joiner joiner v ≡ some v') × Permᴰ (flatten v'.sets) ns
unfolding IsJoiner
add_joiner-lists none v0 v vs ns p q m j =
    (v, refl, Permᴰ.trans (PermD.symm (subst (λ l. Permᴰ l (flatten v.sets)) (append-nil vs) p)) q)
add_joiner-lists (some j) v0 v vs ns p q m is = elim (Bool-cases v.found_joiner) [
  | inr lost ↦ absurd (is (All-perm (λ n. j ≢ n) q (m lost).1))
  | inl found ↦
      let s' : Permᴰ (flatten (v.sets ++ (j ∷ []) ∷ [])) (j ∷ flatten v.sets) =
        rw (flatten-snoc v.sets (j ∷ [])) (PermD.append_comm (flatten v.sets) (j ∷ [])) in
      let p' : Permᴰ (j ∷ flatten v.sets) vs = PermD.symm (
        subst (λ l. Permᴰ l (j ∷ flatten v.sets)) (append-nil vs)
          (subst (λ b. Permᴰ (vs ++ []) (left_out (some j) b ++ flatten v.sets)) found p)) in
      (
        record v { sets = v.sets ++ (j ∷ []) ∷ [] },
        rw found refl,
        Permᴰ.trans s' (Permᴰ.trans p' q),
      )
]

-- Where the daemons of a group differ, the configuration finds each by its id, and the joiner, if
-- there is one, is a member: G_build_memb_vs_buf returns, without an exit or a failing assertion,
-- and its virtual-synchrony sets together are a permutation of the members of the group.
pub build_memb_vs_buf-lists :
    (e : Env) (g : Group) (joiner : Option Name)
    → AllListed e.table g.daemons
    → Apart (λ d. d.proc_id) g.daemons
    → IsJoiner joiner (all_members g.daemons)
    → (v : VsSets) × (build_memb_vs_buf e g joiner ≡ some v)
      × Permᴰ (flatten v.sets) (all_members g.daemons)
unfolding build_memb_vs_buf
build_memb_vs_buf-lists e g joiner l a j =
    let (os, ordered, order) = e.vs_order-perm g.daemons l a in
    let start : VsSets = record {
      memb_id = unknown_memb_id;
      sets = [];
      offset = 0;
      found_joiner = false;
    } in
    let (v, r, p, m) =
      vs_daemons-lists e joiner os start (inl refl)
        (Apart-perm (λ d. d.proc_id) (PermD.symm order) a) (All-of _ (λ d _. refl) os) in
    let (v', r', q) =
      add_joiner-lists joiner start v (all_members os) (all_members g.daemons)
        (subst
          (λ l.
            Permᴰ (all_members os ++ (l ++ [])) (left_out joiner v.found_joiner ++ flatten v.sets))
          (left_out-start joiner) p)
        (gather-perm (λ d. d.members) order) m j in
    (v', >>=-some _ _ os _ ordered (rw r r'), q)

pub send_heavyweight_join-Returns :
    (e : Env) (g : Group) (joiner : Option Name) (b : Option ℕ)
    → AllListed e.table g.daemons
    → Apart (λ d. d.proc_id) g.daemons
    → IsJoiner joiner (all_members g.daemons)
    → (t : List (ℕ × Notice)) × (send_heavyweight_join e g joiner b ≡ some t)
unfolding send_heavyweight_join
send_heavyweight_join-Returns e g joiner b l a j =
    let (v, r, p) = build_memb_vs_buf-lists e g joiner l a j in >>=-Returns _ _ (v, r)

pub send_heavyweight_memb-Returns :
    (e : Env) (g : Group)
    → AllListed e.table g.daemons
    → Apart (λ d. d.proc_id) g.daemons
    → (t : List (ℕ × Notice)) × (send_heavyweight_memb e g ≡ some t)
unfolding send_heavyweight_memb IsJoiner
send_heavyweight_memb-Returns e g l a = send_heavyweight_join-Returns e g none none l a tt
