-- ===== src/Groups/Listed.antt =====
-- daemon/groups.c: on processes that the configuration finds, the comparison of daemons fails nowhere
-- and tells them apart.
use mathlib.Core.List.{Permᴰ, head-eq_of_cons-eq, tail-eq_of_cons-eq}
use mathlib.Core.Option.{some-injective}
use in5020_distribuerte_syst.Prelude.{
  ℕ, ◌≡◌, ◌≢◌, refl, sym, ap, ◌∙◌, subst, List, [], ◌∷◌, ◌++◌, Option, none, some, length, arith,
  All, All-imp, All-perm, ℤ, pos, sub_ℕ,
}
use in5020_distribuerte_syst.Conf.{Proc, proc_by_id}
use in5020_distribuerte_syst.Conf.Lookup.{Found, proc_by_id-Found}
use in5020_distribuerte_syst.Groups.{
  Group, DaemonMembers, Env, compare_proc_ids_by_conf, IsListed, AllListed, get_daemon,
}

same_place :
    (xs ys xs' ys' : List Proc) (p q : Proc)
    → xs ++ p ∷ ys ≡ xs' ++ q ∷ ys'
    → length xs ≡ length xs'
    → p ≡ q
same_place [] ys [] ys' p q e l = head-eq_of_cons-eq e
same_place [] ys (x' ∷ xs') ys' p q e l = absurd (omega (arith, l))
same_place (x ∷ xs) ys [] ys' p q e l = absurd (omega (arith, l))
same_place (x ∷ xs) ys (x' ∷ xs') ys' p q e l =
    same_place xs ys xs' ys' p q (tail-eq_of_cons-eq e) (omega (arith, l))

-- One place of the table has one process.
proc_by_id-place :
    (table : List Proc) (a b i : ℕ) (p q : Proc)
    → proc_by_id table a ≡ some (i, p)
    → proc_by_id table b ≡ some (i, q)
    → p ≡ q
proc_by_id-place table a b i p q e f =
    let (xs, ys, s, k, _, _) = subst (Found 0 table a) e (proc_by_id-Found table a) in
    let (xs', ys', s', k', _, _) = subst (Found 0 table b) f (proc_by_id-Found table b) in
    same_place xs ys xs' ys' p q (sym s ∙ s') (omega (arith, k, k'))

compare-some :
    (table : List Proc) (a b : ℕ)
    → IsListed table a
    → IsListed table b
    → (c : ℤ) × (compare_proc_ids_by_conf table a b ≡ some c)
unfolding compare_proc_ids_by_conf IsListed
compare-some table a b (i, p, e, _) (j, q, f, _) = (sub_ℕ i j, rw (e, f) refl)

compare-same :
    (table : List Proc) (a : ℕ)
    → IsListed table a
    → compare_proc_ids_by_conf table a a ≡ some (pos 0)
unfolding compare_proc_ids_by_conf IsListed
compare-same table a (i, p, e, _) = rw e (ap some zero_diff)
  where
    zero_diff : sub_ℕ i i ≡ pos 0
    zero_diff = ground arith

compare-eq :
    (table : List Proc) (a b : ℕ)
    → IsListed table a
    → IsListed table b
    → compare_proc_ids_by_conf table a b ≡ some (pos 0)
    → a ≡ b
unfolding compare_proc_ids_by_conf IsListed
compare-eq table a b (i, p, e, s) (j, q, f, t) c =
    let z : sub_ℕ i j ≡ pos 0 = some-injective _ _ (sym (rw (e, f) refl) ∙ c) in
    let same : i ≡ j = ground (arith, z) in
    sym s ∙ ap (λ r. r.id) (proc_by_id-place table a b j p q (e ∙ ap (λ k. some (k, p)) same) f) ∙ t

-- The search for a listed daemon fails nowhere, and finds it by its id.
module _ (e : Env) (g : Group) (id : ℕ) (all : AllListed e.table g.daemons)
    (k : IsListed e.table id) where
  pub get_daemon-some :
      (d : DaemonMembers)
      → get_daemon e g id ≡ some (some d)
      → (d.proc_id ≡ id) × (rest : List DaemonMembers) × Permᴰ g.daemons (d ∷ rest)
  get_daemon-some d f =
      let (c, rest, p) = e.daemons_list.find-some g.daemons id d f in
      (compare-eq e.table d.proc_id id (All-perm _ p all).0 k c, rest, p)

  pub get_daemon-none : get_daemon e g id ≡ some none → All (λ c. c.proc_id ≢ id) g.daemons
  get_daemon-none f =
      All-imp
        (λ d n same.
          n (ap (λ i. compare_proc_ids_by_conf e.table i id) same ∙ compare-same e.table id k))
        g.daemons (e.daemons_list.find-none g.daemons id f)

  pub get_daemon-Returns : (o : Option DaemonMembers) × (get_daemon e g id ≡ some o)
  get_daemon-Returns =
      e.daemons_list.find-Returns g.daemons id
        (All-imp (λ d l. compare-some e.table d.proc_id id l k) g.daemons all)
