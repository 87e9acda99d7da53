-- ===== src/Conf/Lookup.antt =====
-- What the lookups of daemon/configuration.c find.
use in5020_distribuerte_syst.Prelude.{
  ℕ, suc, ◌+◌, ◌≡◌, refl, inl, inr, true, false, arith, Bool-cases, List, [], ◌∷◌, Option, none,
  some, length, ap, ◌++◌,
}
use in5020_distribuerte_syst.Conf.{Proc, has_ip, proc_by_id_from, proc_by_id}

-- No process of the table has an interface with the address.
abbrev pub NoneHas : List Proc → ℕ → Type 0
NoneHas [] id = Unit
NoneHas (p ∷ ps) id = (has_ip p.ifc id ≡ false) × NoneHas ps id

-- What the loop may return from index `i` on.
abbrev pub Found : ℕ → List Proc → ℕ → Option (ℕ × Proc) → Type 0
Found i ps id none = NoneHas ps id
Found i ps id (some (k, p)) =
    (pre : List Proc) × (post : List Proc) × (ps ≡ pre ++ p ∷ post)
    × (k ≡ i + length pre)
    × NoneHas pre id
    × (has_ip p.ifc id ≡ true)

Found-skip :
    (i : ℕ) (p : Proc) (ps : List Proc) (id : ℕ) (o : Option (ℕ × Proc))
    → has_ip p.ifc id ≡ false
    → Found (suc i) ps id o
    → Found i (p ∷ ps) id o
Found-skip i p ps id none h n = (h, n)
Found-skip i p ps id (some (k, q)) h (pre, post, e, at, n, hit) =
    (p ∷ pre, post, ap (λ l. p ∷ l) e, omega arith, (h, n), hit)

proc_by_id_from-Found : (i : ℕ) (ps : List Proc) (id : ℕ) → Found i ps id (proc_by_id_from i ps id)
unfolding proc_by_id_from
proc_by_id_from-Found i [] id = tt
proc_by_id_from-Found i (p ∷ ps) id = elim (Bool-cases (has_ip p.ifc id)) [
  | inl h ↦ rw h ([], ps, refl, omega arith, tt, h)
  | inr h ↦ rw h (Found-skip i p ps id _ h (proc_by_id_from-Found (suc i) ps id))
]

-- `Conf_proc_by_id` returns the index and the entry of the first process that has an interface
-- with the address, and -1 exactly when there is none.
pub proc_by_id-Found : (table : List Proc) (id : ℕ) → Found 0 table id (proc_by_id table id)
unfolding proc_by_id
proc_by_id-Found table id = proc_by_id_from-Found 0 table id
