-- ===== src/Memb/Discipline/Fill.antt =====
-- `Fill_form1` leaves the timers that fit the state it ends in.
use in5020_distribuerte_syst.Prelude.{
  ◌≡◌, refl, ap, ◌∙◌, Bool, false, if◌then◌else◌, List, Option, none, some, ◌==◌, ◌>>=◌, arith,
}
use in5020_distribuerte_syst.Events.Timers.{Callback}
use in5020_distribuerte_syst.Conf.{leader}
use in5020_distribuerte_syst.Memb.Reps.{RepsInfo, active}
use in5020_distribuerte_syst.Memb.Rings.{RingInfo, Middle, gathered, no_id_yet, numbered, FormToken}
use in5020_distribuerte_syst.Memb.State.{
  Daemon, Phase, op, seg, represented, gather, form, evs, cancel, send, send_join_call,
  form_or_fail_call, shift_to_seg_call, token_loss_call, token_hurry_call,
}
use in5020_distribuerte_syst.Memb.State.Timers.{Only, queue-Only, dequeue-Only, weaken-Only}
use in5020_distribuerte_syst.Memb.Loss.{no_reps}
use in5020_distribuerte_syst.Memb.Form.{enter_form, add_potential}
use in5020_distribuerte_syst.Memb.Form.Fill.{
  Lists, fill_rings, fill_member, fill_rep, pass_form1, fill_behind, fill_form1, is_next_rep,
}
use in5020_distribuerte_syst.Memb.Form.Read.{handle_form1}
use in5020_distribuerte_syst.Memb.Discipline.{
  InPhase, Keeps, Keeps-if, Keeps->>=, Keeps-bind, allowed, is_seg, SameTimers, SameState,
  SameState-InPhase,
}

-- From a state whose timers it clears.
pub enter_form-InPhase :
    (test : Callback → Bool) (d : Daemon)
    → ((c : Callback) → allowed form false c ≡ false → test c ≡ false)
    → Only test d.timers
    → InPhase (enter_form d)
unfolding enter_form
enter_form-InPhase test d h o = record {
  mirrored = refl;
  token = refl;
  fits =
      weaken-Only _ _ _ (λ c f. ground (arith, f))
        (dequeue-Only _ token_hurry_call _
          (queue-Only (allowed form false) _ token_loss_call _ _ refl (weaken-Only _ _ _ h o)));
}

-- The token goes out, and the timers of the gathering are cleared.
leave-InPhase :
    (d : Daemon)
    → is_seg d.phase ≡ false
    → Only (allowed d.phase d.token_alive) d.timers
    → InPhase
        (enter_form (cancel shift_to_seg_call (cancel form_or_fail_call (cancel send_join_call d))))
unfolding cancel
leave-InPhase d s o =
    enter_form-InPhase _ _ (λ c f. ground (arith, f, s))
      (dequeue-Only _ shift_to_seg_call _
        (dequeue-Only _ form_or_fail_call _ (dequeue-Only _ send_join_call _ o)))

pass_form1-SameTimers :
    (t : FormToken) (l : Lists) (rings : List RingInfo) (d d' : Daemon)
    → pass_form1 t l rings d ≡ some d'
    → SameTimers d d'
unfolding pass_form1 send
pass_form1-SameTimers t l rings d d' e = ground arith

fill_behind-Keeps :
    (t : FormToken) (l : Lists) (d : Daemon)
    → is_seg d.phase ≡ false
    → InPhase d
    → Keeps (fill_behind t l d)
unfolding fill_behind
fill_behind-Keeps t l d s v =
    Keeps->>= (add_potential d.table d.my.seg_index (active l.reps) (no_reps d.potential_reps)) _
      λ p.
        let told = record d { potential_reps = p } in
        Keeps->>= (fill_rings t.rings l.members told) _ λ x.
          let l' = record l { members = x.1 } in
          Keeps-bind (pass_form1 t l' x.0 told) _ λ h e.
            let m = pass_form1-SameTimers t l' x.0 told h e in
            leave-InPhase h (ap (λ y. is_seg y) m.phase ∙ s)
              (rw (m.timers, m.phase, m.alive) v.fits)

fill_rep-SameState :
    (l : Lists) (d : Daemon) (x : Lists × Daemon) → fill_rep l d ≡ some x → SameState d x.1
unfolding fill_rep
fill_rep-SameState l d x e = ground arith

fill_form1-Keeps :
    (t : FormToken) (r : RepsInfo) (d : Daemon) → InPhase d → Keeps (fill_form1 t r d)
unfolding fill_form1
fill_form1-Keeps t r d v = go d.phase refl
  where
    l : Lists
    l = record { members = t.members; reps = r }

    member :
        is_seg d.phase ≡ false
        → (o : Option Lists) → Keeps (elim o [ none ↦ some d | some l' ↦ fill_behind t l' d ])
    member q none = v
    member q (some l') = fill_behind-Keeps t l' d q v

    rep : is_seg d.phase ≡ false → Keeps (fill_rep l d >>= λ x. fill_behind t x.0 x.1)
    rep q = Keeps-bind (fill_rep l d) _ λ x f.
        let m = fill_rep-SameState l d x f in
        fill_behind-Keeps t x.0 x.1 (ap (λ y. is_seg y) m.phase ∙ q) (SameState-InPhase d x.1 m v)

    gathering : Option Daemon
    gathering = fill_rep l d >>= λ x. fill_behind t x.0 x.1

    at_member : Option Daemon
    at_member = elim (fill_member d.my.id l) [ none ↦ some d | some l' ↦ fill_behind t l' d ]

    go :
        (s : Phase)
        → d.phase ≡ s
        → Keeps (elim s [
          | op ↦ at_member
          | represented ↦ at_member
          | gather ↦ if is_next_rep l d.my.id then gathering else some d
          | seg ↦ none
          | form ↦ none
          | evs ↦ none
        ])
    go op e = member (ap (λ y. is_seg y) e) (fill_member d.my.id l)
    go represented e = member (ap (λ y. is_seg y) e) (fill_member d.my.id l)
    go gather e = Keeps-if (is_next_rep l d.my.id) gathering (some d) (rep (ap (λ y. is_seg y) e)) v
    go seg e = tt
    go form e = tt
    go evs e = tt

pub handle_form1-Keeps : (t : FormToken) (d : Daemon) → InPhase d → Keeps (handle_form1 t d)
unfolding handle_form1
handle_form1-Keeps t d v = go t.middle
  where
    filled :
        (r : RepsInfo) (s : Phase)
        → Keeps (elim s [
          | op ↦ leader d.membership >>= λ id. (if id == d.my.id then some d else fill_form1 t r d)
          | represented ↦ fill_form1 t r d
          | gather ↦ fill_form1 t r d
          | seg ↦ some d
          | form ↦ some d
          | evs ↦ some d
        ])
    filled r op =
        Keeps->>= (leader d.membership) _
          λ id. Keeps-if (id == d.my.id) (some d) (fill_form1 t r d) v (fill_form1-Keeps t r d v)
    filled r represented = fill_form1-Keeps t r d v
    filled r gather = fill_form1-Keeps t r d v
    filled r seg = v
    filled r form = v
    filled r evs = v

    go :
        (m : Middle)
        → Keeps (elim m [
          | gathered r ↦ elim d.phase [
            | op ↦
                leader d.membership >>= λ id. (if id == d.my.id then some d else fill_form1 t r d)
            | represented ↦ fill_form1 t r d
            | gather ↦ fill_form1 t r d
            | seg ↦ some d
            | form ↦ some d
            | evs ↦ some d
          ]
          | no_id_yet r ↦ none
          | numbered id ↦ none
        ])
    go (gathered r) = filled r d.phase
    go (no_id_yet r) = tt
    go (numbered id) = tt
