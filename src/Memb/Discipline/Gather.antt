-- ===== src/Memb/Discipline/Gather.antt =====
-- `Form_or_fail` leaves the timers that fit the state it ends in.
use in5020_distribuerte_syst.Prelude.{ℕ, ◌≡◌, refl, sym, true, not, ◌&&◌, ◌==◌, subst, arith}
use in5020_distribuerte_syst.Events.Timers.{same}
use in5020_distribuerte_syst.Memb.Members.{MembersInfo}
use in5020_distribuerte_syst.Memb.Reps.{RepsInfo, active, smallest_rep}
use in5020_distribuerte_syst.Memb.Rings.{FormToken}
use in5020_distribuerte_syst.Memb.State.{
  Daemon, cancel, send, send_join_call, form_or_fail_call, lookup_call,
}
use in5020_distribuerte_syst.Memb.State.Timers.{Only, queue-Only, dequeue-Only, weaken-Only}
use in5020_distribuerte_syst.Memb.Shift.{only_member}
use in5020_distribuerte_syst.Memb.Loss.{no_reps, add_reps, tail_of}
use in5020_distribuerte_syst.Memb.Form.{
  create_form1, back_to_op, form_or_fail, Hop, to_member, to_rep, to_none, next_hop, first_members,
  sort_reps, add_potential, hand_form1, form1_token,
}
use in5020_distribuerte_syst.Memb.Discipline.{
  InPhase, Fired, Keeps, Keeps-if, Keeps->>=, Keeps-test, allowed, is_gather,
  shift_to_gather-InPhase, SameTimers,
}
use in5020_distribuerte_syst.Memb.Discipline.Fill.{enter_form-InPhase}

hand_form1-SameTimers :
    (h : Hop) (t : FormToken) (m : MembersInfo) (r : RepsInfo) (d : Daemon)
    → SameTimers d (hand_form1 h t m r d)
unfolding hand_form1 send
hand_form1-SameTimers (to_member id) t m r d = record { timers = refl; phase = refl; alive = refl }
hand_form1-SameTimers (to_rep id) t m r d = record { timers = refl; phase = refl; alive = refl }
hand_form1-SameTimers to_none t m r d = record { timers = refl; phase = refl; alive = refl }

back_to_op-InPhase :
    (d : Daemon)
    → is_gather d.phase ≡ true
    → d.token_alive ≡ true
    → Fired form_or_fail_call d
    → InPhase (back_to_op d)
unfolding back_to_op
back_to_op-InPhase d g a v = record {
  mirrored = refl;
  token = a;
  fits =
      queue-Only _ _ lookup_call _ _ refl (
        weaken-Only _ _ _ (λ c f. ground (arith, f, g, a))
          (dequeue-Only _ send_join_call _ v.fits));
}

create_form1-Keeps :
    (stale : ℕ) (d : Daemon)
    → is_gather d.phase ≡ true
    → Fired form_or_fail_call d
    → Keeps (create_form1 stale d)
unfolding create_form1 cancel
create_form1-Keeps stale d g v = Keeps->>= (first_members d) _ λ m.
    Keeps->>= (sort_reps d.table d.f_reps) _ λ sorted.
      let r = record sorted { rep_index = 1 } in
      Keeps->>= (add_potential d.table d.my.seg_index (active r) (no_reps d.potential_reps)) _ λ p.
        let told = record d { f_members = m; f_reps = r; potential_reps = p } in
        let handed = hand_form1 (next_hop m r) (form1_token stale m r d) m r told in
        let s = hand_form1-SameTimers (next_hop m r) (form1_token stale m r d) m r told in
        enter_form-InPhase _ (cancel send_join_call handed) (λ c f. ground (arith, f, g))
          (dequeue-Only _ send_join_call _ (
            subst
              (λ q. Only (λ c. allowed d.phase d.token_alive c && not (same form_or_fail_call c)) q)
              (sym s.timers) v.fits))

-- As a timer calls it in state GATHER, its own event off the list, where otherwise the token fits
-- the state, GlobalStatus shows it, and only the timers of the state wait, each once: Form_or_fail
-- exits or ends in a state of which all this holds.
pub form_or_fail-Keeps :
    (stale : ℕ) (d : Daemon)
    → is_gather d.phase ≡ true
    → Fired form_or_fail_call d
    → Keeps (form_or_fail stale d)
unfolding form_or_fail
form_or_fail-Keeps stale d g v = Keeps->>= (smallest_rep d.table d.f_reps) _ λ x.
    Keeps-if (x.0 == d.my.id) _ _
      (Keeps-test (d.token_alive && (d.f_reps.num_reps == 1)) _ _
        (λ a. back_to_op-InPhase d g (ground (arith, a)) v) (λ a. create_form1-Keeps stale d g v))
      (Keeps-test d.token_alive _ _ (λ a. back_to_op-InPhase d g a v)
        (λ a.
          Keeps->>= (add_reps d.table (tail_of (active d.f_reps)) (no_reps d.potential_reps)) _ λ p.
            shift_to_gather-InPhase _
              (record d {
                f_members = record (only_member d.my.id d.f_members) { num_pending = 0 };
                potential_reps = p;
              })
              (λ c h. ground (arith, h, g)) v.fits))
