-- ===== src/Memb/Handlers/Refer.antt =====
-- The handler of refer packets in daemon/membership.c, and the loop that takes the representatives
-- of a join in.
use in5020_distribuerte_syst.Prelude.{
  ◌%◌, arith, ℕ, ◌≡◌, ◌≤◌, refl, some, List, [], ◌∷◌, inl, inr, Option-cases,
}
use in5020_distribuerte_syst.Conf.{Proc, proc_by_id}
use in5020_distribuerte_syst.Memb.Reps.{RepInfo, RepsInfo}
use in5020_distribuerte_syst.Memb.Reps.Segments.{IsOwn, IsValid, insert_rep-IsValid}
use in5020_distribuerte_syst.Memb.State.{Daemon, Phase, op, seg, represented, gather, form, evs}
use in5020_distribuerte_syst.Memb.Loss.{insert_quietly, add_reps}
use in5020_distribuerte_syst.Memb.Handlers.{refer_in, handle_refer}

insert_quietly-IsValid :
    (table : List Proc) (r : RepsInfo) (rep : RepInfo)
    → IsOwn table rep
    → rep.kind ≤ 2
    → IsValid r
    → (r' : RepsInfo) × (insert_quietly table r rep ≡ some r') × IsValid r'
insert_quietly-IsValid table r rep own k v =
    let (b, r', e, v') = insert_rep-IsValid table r rep own k v in
    (r', rw (e, insert_quietly) refl, v')

-- Each representative is of a known type and names its own segment.
unfoldable pub AllOwn : List Proc → List RepInfo → Type 0
AllOwn table [] = Unit
AllOwn table (x ∷ xs) = (IsOwn table x × (x.kind ≤ 2)) × AllOwn table xs

-- On representatives that are kept apart, the loop over those of a join, or those gathered when the
-- token is lost, each of a known type and naming its own segment, goes to its end without an exit,
-- and keeps them apart.
pub add_reps-IsValid :
    (table : List Proc) (xs : List RepInfo) (r : RepsInfo)
    → AllOwn table xs
    → IsValid r
    → (r' : RepsInfo) × (add_reps table xs r ≡ some r') × IsValid r'
unfolding AllOwn
add_reps-IsValid table [] r h v = (r, refl, v)
add_reps-IsValid table (x ∷ xs) r ((own, k), h) v =
    let (r', e, v') = insert_quietly-IsValid table r x own k v in
    let (r'', e', v'') = add_reps-IsValid table xs r' h v' in (r'', rw e e', v'')

abbrev pub named : ℕ → Proc → RepInfo
named kind p = record { proc_id = p.id; kind = kind % 65536; seg_index = p.seg_index }

refer_in-Returns :
    (s : Phase) (rep kind : ℕ) (d : Daemon)
    → kind ≤ 2
    → ((k : ℕ) (p : Proc) → proc_by_id d.table rep ≡ some (k, p) → IsOwn d.table (named kind p))
    → IsValid d.potential_reps
    → (d' : Daemon) × (refer_in s rep kind d ≡ some d')
      × IsValid d'.potential_reps
      × (d'.phase ≡ d.phase)
unfolding refer_in
refer_in-Returns gather rep kind d l own v = elim (Option-cases (proc_by_id d.table rep)) [
  | inl e ↦ (d, rw (e, refer_in) refl, v, refl)
  | inr (kp, e) ↦
      let (r', e', v') =
        insert_quietly-IsValid d.table d.potential_reps (named kind kp.1) (own kp.0 kp.1 e)
          (omega arith) v in
      (record d { potential_reps = r' }, rw (e, e', refer_in) refl, v', refl)
]
refer_in-Returns op rep kind d l own v = (d, refl, v, refl)
refer_in-Returns seg rep kind d l own v = (d, refl, v, refl)
refer_in-Returns represented rep kind d l own v = (d, refl, v, refl)
refer_in-Returns form rep kind d l own v = (d, refl, v, refl)
refer_in-Returns evs rep kind d l own v = (d, refl, v, refl)

-- Where the type is known, the representative that is named, if any process has that address,
-- names its own segment, and the potential representatives are kept apart, `Memb_handle_refer`
-- returns without an exit, in the same state, and keeps them apart.
handle_refer-Returns :
    (rep kind : ℕ) (d : Daemon)
    → kind ≤ 2
    → ((k : ℕ) (p : Proc) → proc_by_id d.table rep ≡ some (k, p) → IsOwn d.table (named kind p))
    → IsValid d.potential_reps
    → (d' : Daemon) × (handle_refer rep kind d ≡ some d')
      × IsValid d'.potential_reps
      × (d'.phase ≡ d.phase)
unfolding handle_refer
handle_refer-Returns rep kind d = refer_in-Returns d.phase rep kind d
