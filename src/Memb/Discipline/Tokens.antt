-- ===== src/Memb/Discipline/Tokens.antt =====
-- `Read_form2` and every handler of a form token leave the timers that fit the state it ends in.
use in5020_distribuerte_syst.Prelude.{
  suc, ◌-◌, ◌≡◌, refl, sym, ◌∙◌, Bool, true, false, ◌&&◌, if◌then◌else◌, none, some, ◌==◌, ltb,
  get_or, subst, ℤ, arith,
}
use in5020_distribuerte_syst.Events.Timers.{Callback}
use in5020_distribuerte_syst.Conf.{last}
use in5020_distribuerte_syst.Flow.{new_configuration}
use in5020_distribuerte_syst.Prot.Store.{MembershipId, has_bits}
use in5020_distribuerte_syst.Memb.Members.{MembersInfo}
use in5020_distribuerte_syst.Memb.Rings.{RingInfo, Middle, FormToken, form1_type, form2_type}
use in5020_distribuerte_syst.Memb.State.{
  Daemon, Phase, op, seg, represented, gather, form, evs, send, token_loss_call,
}
use in5020_distribuerte_syst.Memb.State.Timers.{Only, queue-Only, weaken-Only}
use in5020_distribuerte_syst.Memb.Form.Fill.{own_of}
use in5020_distribuerte_syst.Memb.Form.Read.{
  stamp, number, announce, agree, time_ring, pass_form2, enter_evs, read_behind, read_form2,
  handle_form1, handle_form2, handle_form_token, commit_of, passed_on,
}
use in5020_distribuerte_syst.Memb.Discipline.{
  InPhase, Keeps, Keeps-if, Keeps->>=, Keeps-bind, allowed, SameState,
}
use in5020_distribuerte_syst.Memb.Discipline.Fill.{handle_form1-Keeps}

number-SameState :
    (first : Bool) (m : Middle) (d : Daemon) (x : MembershipId × (ℤ × Daemon))
    → number first m d ≡ some x
    → SameState d x.1.1
unfolding number stamp
number-SameState first m d x e = ground arith

announce-SameState :
    (id : MembershipId) (m : MembersInfo) (d d' : Daemon)
    → announce id m d ≡ some d'
    → SameState d d'
unfolding announce
announce-SameState id m d d' e = ground arith

time_ring-SameState : (r : RingInfo) (t : ℤ) (d : Daemon) → SameState d (time_ring r t d).1
unfolding time_ring stamp
time_ring-SameState r t d = ground arith

pass_form2-SameState : (b : Bool) (t : FormToken) (d : Daemon) → SameState d (pass_form2 b t d)
unfolding pass_form2 send
pass_form2-SameState true t d = record { timers = refl; phase = refl; alive = refl; status = refl }
pass_form2-SameState false t d = record { timers = refl; phase = refl; alive = refl; status = refl }

enter_evs-InPhase :
    (test : Callback → Bool) (d : Daemon)
    → ((c : Callback) → allowed evs true c ≡ false → test c ≡ false)
    → Only test d.timers
    → InPhase (enter_evs d)
unfolding enter_evs
enter_evs-InPhase test d h o = record {
  mirrored = refl;
  token = refl;
  fits = queue-Only (allowed evs true) _ token_loss_call _ _ refl (weaken-Only _ _ _ h o);
}

read_behind-Keeps :
    (t : FormToken) (m : MembersInfo) (d : Daemon)
    → d.phase ≡ form
    → InPhase d
    → Keeps (read_behind t m d)
unfolding read_behind
read_behind-Keeps t m d p v =
    let start = record d { store = record d.store { last_seq = t.seq } } in
    Keeps-bind (number (m.num_members == 1) t.middle start) _ λ x e.
      Keeps-bind (announce x.0 m x.1.1) _ λ told f.
        Keeps->>= (own_of told.membership_id t.rings) _ λ r.
          Keeps->>= (agree r (new_configuration told.store)) _ λ s.
            let d1 = record told {
              store = s;
              future_commit_set = commit_of r told.future_commit_set;
            } in
            let y = time_ring r x.1.0 d1 in
            let d2 = record y.1 { f_trans_memb_time = y.0 } in
            let t' = passed_on t d.my.id m x.0 told.membership_id y.0 in
            Keeps->>= (last told.future_membership) _ λ last_one.
              let a = number-SameState (m.num_members == 1) t.middle start x e in
              let b = announce-SameState x.0 m x.1.1 told f in
              let c = time_ring-SameState r x.1.0 d1 in
              let g = pass_form2-SameState (last_one == d.my.id) t' d2 in
              let timers = g.timers ∙ c.timers ∙ b.timers ∙ a.timers in
              enter_evs-InPhase (allowed d.phase d.token_alive)
                (pass_form2 (last_one == d.my.id) t' d2) (λ k h. ground (arith, h, p))
                (subst (λ q. Only (allowed d.phase d.token_alive) q) (sym timers) v.fits)

handle_form2-Keeps : (t : FormToken) (d : Daemon) → InPhase d → Keeps (handle_form2 t d)
unfolding handle_form2 read_form2
handle_form2-Keeps t d v = go d.phase refl
  where
    m : MembersInfo
    m = t.members

    mine : Bool
    mine = (get_or m.members m.num_members 0 == d.my.id) && ltb 0 m.num_pending

    counted : MembersInfo
    counted = record m { num_members = suc m.num_members; num_pending = m.num_pending - 1 }

    go :
        (s : Phase)
        → d.phase ≡ s
        → Keeps (elim s [
          | op ↦ some d
          | seg ↦ some d
          | represented ↦ some d
          | gather ↦ some d
          | form ↦ if mine then read_behind t counted d else some d
          | evs ↦ some d
        ])
    go op e = v
    go seg e = v
    go represented e = v
    go gather e = v
    go form e =
        Keeps-if mine (read_behind t counted d) (some d) (read_behind-Keeps t counted d e v) v
    go evs e = v

-- From any state in which the token fits the state, GlobalStatus shows the state, and at most one
-- event waits for each callback and only for callbacks that belong to the state, Memb_handle_token
-- of any form token exits or ends in such a state.
pub handle_form_token-Keeps :
    (t : FormToken) (d : Daemon) → InPhase d → Keeps (handle_form_token t d)
unfolding handle_form_token
handle_form_token-Keeps t d v =
    Keeps-if (has_bits t.kind form1_type) (handle_form1 t d)
      (if has_bits t.kind form2_type then handle_form2 t d else none) (handle_form1-Keeps t d v)
      (Keeps-if (has_bits t.kind form2_type) (handle_form2 t d) none (handle_form2-Keeps t d v) tt)
