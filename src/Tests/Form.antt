-- ===== src/Tests/Form.antt =====
-- daemon/membership.c: the form tokens on small inputs.
use in5020_distribuerte_syst.Prelude.{
  ◌≤◌, ◌<◌, ◌==◌, not, ℕ, ◌≡◌, refl, false, ◌||◌, [], ◌∷◌, take, some, arith, pos, is_none,
}
use in5020_distribuerte_syst.Conf.{leader, seg_leader, proc_by_id, append_id_to_seg}
use in5020_distribuerte_syst.Memb.Loss.{token_loss}
use in5020_distribuerte_syst.Memb.Members.{insert_member}
use in5020_distribuerte_syst.Memb.Reps.{smallest_rep, insert_rep}
use in5020_distribuerte_syst.Events.Timers.Map.{pending}
use in5020_distribuerte_syst.Prot.Evs.{with_store}
use in5020_distribuerte_syst.Memb.State.{Daemon, Phase, form_or_fail_call}
use in5020_distribuerte_syst.Memb.Rings.{
  RingInfo, FormToken, gathered, form1_type, form2_type, numbered,
}
use in5020_distribuerte_syst.Memb.Init.{memb_init}
use in5020_distribuerte_syst.Memb.Form.{own_ring, create_form1, form_or_fail}
use in5020_distribuerte_syst.Memb.Form.Fill.{merge_ring}
use in5020_distribuerte_syst.Memb.Form.Read.{agree, handle_form_token}
use in5020_distribuerte_syst.Memb.Form.Told.{IsTold, has_packet, own_ring-IsTold, merge_ring-IsTold}
use in5020_distribuerte_syst.Memb.Discipline.{Keeps, Fired}
use in5020_distribuerte_syst.Memb.Discipline.Tokens.{handle_form_token-Keeps}
use in5020_distribuerte_syst.Memb.Discipline.Gather.{form_or_fail-Keeps}
use in5020_distribuerte_syst.Tests.Conf.{machine}
use in5020_distribuerte_syst.Tests.Memb.{ring_member, ring_member-InPhase, three, no_reps, leads}
use in5020_distribuerte_syst.Tests.Prot.{
  two_packets, two_packets-IsSound, one_sender, one_sender-IsFramed,
}
use in5020_distribuerte_syst.Prot.Store.{Store, pack_entry}
use in5020_distribuerte_syst.Prot.Deliver.Order.{IsSound}
use in5020_distribuerte_syst.Memb.Form.Agree.{IsAgreed, top-IsSound, agree-IsAgreed}

-- The first daemon of the ring, and its member 12.
abbrev pub first_daemon : Daemon
first_daemon = with_store (record ring_member { my = machine 11 0 0 }) two_packets

abbrev pub second_daemon : Daemon
second_daemon = with_store ring_member two_packets

first_ring-IsTold : IsTold (has_packet two_packets) (own_ring 0 first_daemon)
first_ring-IsTold = own_ring-IsTold 0 first_daemon (λ q l h. absurd (omega (arith, l, h)))

merge_ring-IsTold_example :
    (own : RingInfo) × (merge_ring (own_ring 0 first_daemon) second_daemon ≡ some own)
    × IsTold (λ q. has_packet two_packets q || has_packet two_packets q) own
    × (take own.num_trans own.procs ≡ 11 ∷ 12 ∷ [])
unfolding own_ring
merge_ring-IsTold_example =
    merge_ring-IsTold (has_packet two_packets) (own_ring 0 first_daemon) second_daemon
      first_ring-IsTold refl (omega arith) (λ q l h. absurd (omega (arith, l, h)))

-- A form1 token of the first daemon, which the second has yet to fill.
abbrev pub form1 : FormToken
form1 = record {
  kind = form1_type;
  seq = 3335;
  proc_id = 11;
  aru_last_id = 0;
  rtr_len = 0;
  members = record three { num_members = 1; num_pending = 1; members = 11 ∷ 12 ∷ 21 ∷ [] };
  middle = gathered no_reps;
  rings = own_ring 0 first_daemon ∷ [];
}

handle_form_token-Keeps_example : Keeps (handle_form_token form1 ring_member)
handle_form_token-Keeps_example = handle_form_token-Keeps form1 ring_member ring_member-InPhase

-- The member 12 gathers, has the token, and no join waits.
abbrev pub gathering : Daemon
gathering = record ring_member {
  phase = Phase.gather;
  status_state = Phase.gather;
  f_reps = record no_reps { num_reps = 1; reps = record leads { proc_id = 12 } ∷ [] };
}

gathering-Fired : Fired form_or_fail_call gathering
unfolding pending
gathering-Fired = record {
  mirrored = refl;
  token = tt;
  fits = record { unique = (tt, tt); none_else = λ c h. ground arith };
}

form_or_fail-Keeps_example : Keeps (form_or_fail 0 gathering)
form_or_fail-Keeps_example = form_or_fail-Keeps 0 gathering refl gathering-Fired

fills : is_none (handle_form_token form1 second_daemon) ≡ false
unfolding handle_form_token leader insert_member proc_by_id
fills = refl

creates : is_none (create_form1 0 gathering) ≡ false
unfolding create_form1 smallest_rep
creates = refl

-- The second daemon reads the form2 token that the first has numbered.
abbrev pub form2 : FormToken
form2 = record form1 {
  kind = form2_type;
  members = record three { num_members = 1; num_pending = 1; members = 11 ∷ 12 ∷ [] };
  middle = numbered (record { proc_id = 11; time = pos 102 });
}

reads : is_none (handle_form_token form2 (record second_daemon { phase = Phase.form })) ≡ false
unfolding handle_form_token proc_by_id append_id_to_seg
reads = refl

-- No daemon has packet 3.
abbrev pub third_unseen : Store
third_unseen = record two_packets { highest_seq = 3 }

abbrev pub unseen_ring : RingInfo
unseen_ring = own_ring 0 (with_store ring_member third_unseen)

third_unseen-IsSound : IsSound one_sender third_unseen
third_unseen-IsSound =
    top-IsSound one_sender 3 two_packets (omega arith) (omega arith) two_packets-IsSound

unseen_ring-IsAgreed : IsAgreed (has_packet third_unseen) unseen_ring third_unseen
unfolding own_ring
unseen_ring-IsAgreed = record {
  told =
      own_ring-IsTold 0 (with_store ring_member third_unseen)
        (λ q l h. absurd (omega (arith, l, h)));
  mine = λ q h. h;
  distinct = (refl, tt);
  behind = λ q c. ground (arith, c);
  past = omega arith;
  low = omega arith;
  high = omega arith;
  room = omega arith;
}

agree-IsAgreed_example :
    (t : Store) × (agree unseen_ring third_unseen ≡ some t)
    × (t.aru ≡ 0)
    × (t.highest_seq ≡ 3)
    × ((q : ℕ) → 0 < q → q ≤ 3 → (t.exist (pack_entry q) == 3) ≡ not (has_packet third_unseen q))
unfolding own_ring
agree-IsAgreed_example =
    agree-IsAgreed one_sender (has_packet third_unseen) unseen_ring third_unseen one_sender-IsFramed
      third_unseen-IsSound unseen_ring-IsAgreed

starts : is_none (memb_init second_daemon) ≡ false
unfolding memb_init token_loss append_id_to_seg proc_by_id seg_leader insert_rep
starts = refl
