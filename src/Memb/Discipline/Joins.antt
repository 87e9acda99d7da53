-- ===== src/Memb/Discipline/Joins.antt =====
-- The handlers of alive and join packets leave the timers that fit the state they end in.
use in5020_distribuerte_syst.Prelude.{
  ℕ, ◌≡◌, refl, not, if◌then◌else◌, inl, inr, Option-cases, Option, none, some, List, ltb, ◌==◌,
  ◌>>=◌,
}
use in5020_distribuerte_syst.Memb.State.{
  Daemon, Phase, op, seg, represented, gather, form, evs, start, send, shift_to_seg_call,
  form_or_fail_call, no_id,
}
use in5020_distribuerte_syst.Memb.Shift.{shift_to_gather, shift_to_represented, scast_alive}
use in5020_distribuerte_syst.Conf.{
  Proc, Configuration, proc_by_id, leader, seg_leader, num_segments,
}
use in5020_distribuerte_syst.Memb.Reps.{active, ring_rep, seg_rep, smallest_rep}
use in5020_distribuerte_syst.Memb.Handlers.{
  contains_id, remember, first_rep, asked, answered, other_ring, refer_to, join_in, join_in_seg,
  join_in_represented, is_my_rep, from_known, lose_to, handle_alive, alive_in, Join, join_in_op,
  join_in_gather, handle_join,
}
use in5020_distribuerte_syst.Memb.Loss.{insert_quietly, add_reps, token_loss}
use in5020_distribuerte_syst.Memb.Discipline.{
  InPhase, Keeps, Keeps-if, InPhase-if, Keeps->>=, start-InPhase, allowed_in, op_to_gather-InPhase,
  framed, SameState-InPhase, token_loss-InPhase, token_loss-Keeps, shift_to_represented-InPhase,
}

lose_to-Keeps : (sender : ℕ) (d : Daemon) → InPhase d → Keeps (lose_to sender d)
unfolding lose_to
lose_to-Keeps sender d v = elim (Option-cases (token_loss d)) [
  | inl e ↦ rw (e, lose_to) tt
  | inr (m, e) ↦
      rw (e, lose_to)
        (SameState-InPhase m _ (record { timers = refl; phase = refl; alive = refl; status = refl })
          (token_loss-InPhase d m v.fits e))
]

remember-InPhase : (id : ℕ) (d : Daemon) → InPhase d → InPhase (remember id d)
remember-InPhase id d v = record { mirrored = v.mirrored; token = v.token; fits = v.fits }

-- A packet from a process of the ring: the token is lost.
lose_if-Keeps :
    (c : Configuration) (sender : ℕ) (d : Daemon)
    → InPhase d
    → Keeps (if contains_id c sender then lose_to sender d else some d)
lose_if-Keeps c sender d v =
    Keeps-if (contains_id c sender) (lose_to sender d) (some d) (lose_to-Keeps sender d v) v

alive_in-Keeps :
    (s : Phase) (sender : ℕ) (d : Daemon) → d.phase ≡ s → InPhase d → Keeps (alive_in s sender d)
unfolding alive_in
alive_in-Keeps op sender d e v = lose_if-Keeps d.membership sender d v
alive_in-Keeps seg sender d e v = remember-InPhase sender d v
alive_in-Keeps represented sender d e v =
    start-InPhase shift_to_seg_call d.timeouts.rep d
      (allowed_in d represented shift_to_seg_call e refl) v
alive_in-Keeps gather sender d e v =
    Keeps-if (not d.token_alive) (some (remember sender d))
      (if contains_id d.membership sender then lose_to sender d else some d)
      (remember-InPhase sender d v) (lose_if-Keeps d.membership sender d v)
alive_in-Keeps form sender d e v = v
alive_in-Keeps evs sender d e v = lose_if-Keeps d.future_membership sender d v

pub handle_alive-Keeps : (sender : ℕ) (d : Daemon) → InPhase d → Keeps (handle_alive sender d)
unfolding handle_alive
handle_alive-Keeps sender d v = alive_in-Keeps d.phase sender d refl v

refer_to-InPhase :
    (receiver rep kind : ℕ) (d : Daemon) → InPhase d → InPhase (refer_to receiver rep kind d)
unfolding send
refer_to-InPhase receiver rep kind d v = framed d _ v refl refl refl refl

asked-InPhase : (j : Join) (d : Daemon) → InPhase d → InPhase (asked j d)
unfolding asked
asked-InPhase j d v = framed d _ v refl refl refl refl

asked_phase : (j : Join) (d : Daemon) → d.phase ≡ op → (asked j d).phase ≡ op
unfolding asked
asked_phase j d e = e

answered-Keeps : (j : Join) (lead : ℕ) (d : Daemon) → InPhase d → Keeps (answered j lead d)
unfolding answered
answered-Keeps j lead d v =
    let sent : InPhase (refer_to j.sender lead ring_rep d) = referred in
    Keeps-if ((first_rep j).seg_index == d.my.seg_index)
      (seg_leader d.membership d.my.seg_index >>= decide) (some (refer_to j.sender lead ring_rep d))
      (Keeps->>= (seg_leader d.membership d.my.seg_index) decide
        λ id. Keeps-if (id == d.my.id) (some (refer_to j.sender lead ring_rep d)) (some d) sent v)
      sent
  where
    decide : ℕ → Option Daemon
    decide id = if id == d.my.id then some (refer_to j.sender lead ring_rep d) else some d

    referred : InPhase (refer_to j.sender lead ring_rep d)
    referred = refer_to-InPhase j.sender lead ring_rep d v

other_ring-Keeps : (j : Join) (d : Daemon) → d.phase ≡ op → InPhase d → Keeps (other_ring j d)
unfolding other_ring
other_ring-Keeps j d e v = Keeps->>= (leader d.membership) _ λ lead.
    Keeps-if (lead == d.my.id) (some (shift_to_gather (asked j d))) (answered j lead d)
      (op_to_gather-InPhase (asked j d) (asked_phase j d e) (asked-InPhase j d v))
      (answered-Keeps j lead d v)

join_in_op-Keeps : (j : Join) (d : Daemon) → d.phase ≡ op → InPhase d → Keeps (join_in_op j d)
unfolding join_in_op
join_in_op-Keeps j d e v =
    Keeps-if (contains_id d.membership j.sender)
      (if ltb 1 (num_segments d.cn) then token_loss d else some d) (other_ring j d)
      (Keeps-if (ltb 1 (num_segments d.cn)) (token_loss d) (some d) (token_loss-Keeps d v) v)
      (other_ring-Keeps j d e v)

join_in_seg-InPhase :
    (j : Join) (p : Proc) (d : Daemon) → d.phase ≡ seg → InPhase d → InPhase (join_in_seg j p d)
unfolding join_in_seg scast_alive send
join_in_seg-InPhase j p d e v =
    InPhase-if (is_my_rep j d p)
      (scast_alive 1 (shift_to_represented (record d { my_seg_rep = j.sender }))) d
      (framed (shift_to_represented (record d { my_seg_rep = j.sender })) _
        (shift_to_represented-InPhase _ e (framed d _ v refl refl refl refl)) refl refl refl refl)
      v

join_in_represented-InPhase :
    (j : Join) (p : Proc) (d : Daemon)
    → d.phase ≡ represented
    → InPhase d
    → InPhase (join_in_represented j p d)
unfolding join_in_represented scast_alive send
join_in_represented-InPhase j p d e v =
    InPhase-if (is_my_rep j d p) (scast_alive 1 again) other
      (framed again _ waits refl refl refl refl)
      (InPhase-if (d.my_seg_rep == no_id) d (refer_to j.sender d.my_seg_rep seg_rep d) v
        (refer_to-InPhase j.sender d.my_seg_rep seg_rep d v))
  where
    again : Daemon
    again = start shift_to_seg_call d.timeouts.rep (record d { my_seg_rep = j.sender })

    other : Daemon
    other = if d.my_seg_rep == no_id then d else refer_to j.sender d.my_seg_rep seg_rep d

    waits : InPhase again
    waits =
        start-InPhase shift_to_seg_call d.timeouts.rep _
          (allowed_in d represented shift_to_seg_call e refl) (framed d _ v refl refl refl refl)

join_in_gather-Keeps :
    (j : Join) (d : Daemon) → d.phase ≡ gather → InPhase d → Keeps (join_in_gather j d)
unfolding join_in_gather
join_in_gather-Keeps j d e v = Keeps->>= (insert_quietly d.table d.f_reps (first_rep j)) _ λ f.
    Keeps->>= (add_reps d.table (active j.reps) d.potential_reps) _ λ p.
      Keeps->>= (smallest_rep d.table f) _ λ least.
        let gathered : Daemon = record d { f_reps = f; potential_reps = p } in
        InPhase-if (least.0 == (first_rep j).proc_id)
          (start form_or_fail_call d.timeouts.gather gathered) gathered
          (start-InPhase form_or_fail_call d.timeouts.gather gathered
            (allowed_in d gather form_or_fail_call e refl)
            (framed d gathered v refl refl refl refl))
          (framed d gathered v refl refl refl refl)

from_known-Keeps :
    (table : List Proc) (id : ℕ) (f : Proc → Daemon)
    → ((p : Proc) → InPhase (f p))
    → Keeps (from_known table id f)
from_known-Keeps table id f h = go (proc_by_id table id)
  where
    go : (o : Option (ℕ × Proc)) → Keeps (elim o [ none ↦ none | some (k, p) ↦ some (f p) ])
    go none = tt
    go (some (k, p)) = h p

join_in-Keeps :
    (s : Phase) (j : Join) (d : Daemon) → d.phase ≡ s → InPhase d → Keeps (join_in s j d)
unfolding join_in
join_in-Keeps op j d e v = join_in_op-Keeps j d e v
join_in-Keeps seg j d e v =
    from_known-Keeps d.table j.sender (λ p. join_in_seg j p d) (λ p. join_in_seg-InPhase j p d e v)
join_in-Keeps represented j d e v =
    from_known-Keeps d.table j.sender (λ p. join_in_represented j p d)
      (λ p. join_in_represented-InPhase j p d e v)
join_in-Keeps gather j d e v = join_in_gather-Keeps j d e v
join_in-Keeps form j d e v = v
join_in-Keeps evs j d e v = lose_if-Keeps d.future_membership j.sender d v

pub handle_join-Keeps : (j : Join) (d : Daemon) → InPhase d → Keeps (handle_join j d)
unfolding handle_join
handle_join-Keeps j d v = join_in-Keeps d.phase j d refl v
