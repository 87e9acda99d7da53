-- ===== src/Prot/Handle/Whole.antt =====
-- daemon/protocol.c: the whole of `Prot_handle_token` on a token that is taken.
use in5020_distribuerte_syst.Prelude.{
  ℕ, ◌+◌, ◌<◌, ◌≤◌, ◌≡◌, ap, ◌∙◌, Bool, true, false, not, ◌==◌, ==_refl, if◌then◌else◌, Option,
  some, ◌>>=◌, arith, pos_part,
}
use in5020_distribuerte_syst.Conf.{Proc, proc_by_id}
use in5020_distribuerte_syst.Flow.{fc_allowed}
use in5020_distribuerte_syst.Memb.State.{Daemon}
use in5020_distribuerte_syst.Memb.Regular.{is_evs}
use in5020_distribuerte_syst.Prot.Store.{Store}
use in5020_distribuerte_syst.Prot.Deliver.Stream.{Ring, IsFramed, position}
use in5020_distribuerte_syst.Prot.Deliver.Order.{IsSound}
use in5020_distribuerte_syst.Prot.Deliver.Extend.{framed_in-IsSound, Agrees}
use in5020_distribuerte_syst.Prot.Send.{down}
use in5020_distribuerte_syst.Prot.Send.Whole.{IsWhole, remaining}
use in5020_distribuerte_syst.Prot.Send.Extends.{send_new_packets-Extends}
use in5020_distribuerte_syst.Prot.Evs.{with_store}
use in5020_distribuerte_syst.Prot.Token.Requests.{asks_old, answer_retrans-quiet}
use in5020_distribuerte_syst.Prot.Handle.{
  leads_ring, with_net, judge, Verdict, swallow, resend_last, take_it, token_hurry,
}
use in5020_distribuerte_syst.Prot.Handle.Token.{
  TokenIn, see_seq, sender_of, take_token, handle_token,
}
use in5020_distribuerte_syst.Prot.Handle.Rounds.{pass_token-IsSound}

see_seq-IsSound :
    (ring : Ring) (seq : ℕ) (s : Store)
    → (see_seq seq s).highest_seq ≤ s.last_discarded + 8192
    → IsSound ring s
    → IsSound ring (see_seq seq s)
see_seq-IsSound ring seq s l v =
    let up : s.highest_seq ≤ (see_seq seq s).highest_seq = ground arith in
    let t = v.top in
    record {
      behind = v.behind;
      ahead = v.ahead;
      top = omega arith;
      room = l;
      flags = v.flags;
      stored = λ i lo hi ne. let (m, p, o) = v.stored i lo hi ne in (omega arith, p, o);
      held = v.held;
      done = v.done;
      early = v.early;
      stream = record {
        in_line = v.stream.in_line;
        in_parts = v.stream.in_parts;
        no_part = v.stream.no_part;
      };
    }

-- What is asked of the daemon and of the token: each message that waits has an element that is not
-- sent, the process is at its place in the ring, up to the highest number that the token tells of,
-- there is room for what waits, and the token asks for no packet of the ring below `Aru`.
pub record IsDue (ring : Ring) (i : TokenIn) (d : Daemon) (index : ℕ) : Type 0 where
  pub regular : is_evs d.phase ≡ false
  pub sound : IsSound ring d.store
  pub small : index < 128
  pub whole : IsWhole (down d.store)
  pub turn :
      position ring index (see_seq i.header.seq d.store).highest_seq ≡ (down d.store).cur_element
  pub space :
      (see_seq i.header.seq d.store).highest_seq + remaining (down d.store)
      ≤ d.last_discarded + 8192
  pub young : asks_old d.aru d.membership_id i.rtrs ≡ false

-- The ring goes on, and the daemon keeps to it.
pub Follows : (ring : Ring) (high : ℕ) (d d' : Daemon) → Type 0
Follows ring high d d' =
    (on : Ring) × IsFramed on
    × Agrees high ring on
    × IsSound on d'.store
    × (d'.aru ≤ d'.my_aru)
    × (d.my_aru ≤ d'.my_aru)
    × (d'.phase ≡ d.phase)

take_token-Follows :
    (ring : Ring) (leads : Bool) (i : TokenIn) (d : Daemon) (k : ℕ) (p : Proc)
    → IsFramed ring
    → proc_by_id d.table d.my.id ≡ some (k, p)
    → IsDue ring i d k
    → (d' : Daemon) × (take_token leads i d ≡ some d')
      × Follows ring (see_seq i.header.seq d.store).highest_seq d d'
unfolding take_token Follows
take_token-Follows ring leads i d k p f here due =
    let seen = see_seq i.header.seq d.store in
    let (x, answered, quiet) =
      answer_retrans-quiet seen d.membership_id d.my.id d.my.seg_index i.rtrs due.young in
    let allowed =
      fc_allowed (is_evs d.phase) seen.highest_seq seen.aru i.header.flow_control d.windows in
    let s = with_net seen x.1.net in
    let v =
      framed_in-IsSound ring seen s
        (see_seq-IsSound ring i.header.seq d.store (omega (arith, due.space)) due.sound) in
    let (y, sent, ext, count, ends) =
      send_new_packets-Extends ring (sender_of d k) (pos_part allowed) s f due.small v quiet
        due.whole due.turn due.space in
    let (d', passed, v', low, up, phase) =
      pass_token-IsSound ext.on ext.framed leads i.header x.0 x.1 y.0 (with_store d y.1) due.regular
        (omega (arith, count)) ext.sound in
    (
      d',
      rw (answered, here, sent) passed,
      (ext.on, ext.framed, ext.agrees, v', low, omega (arith, up, ext.mine), phase),
    )

-- Outside EVS, where the daemon is in the table, is at its place in the ring with room for what it
-- has to send, and the token is whole, alive, due, and asks for no packet of the ring below Aru:
-- Prot_handle_token returns; the ring goes on from the highest number known, framed, with the
-- packets that the daemon sends, and the daemon keeps to it, with Aru at most My_aru, which has not
-- gone down, in the same state.
pub handle_token-Follows :
    (ring : Ring) (leads : Bool) (i : TokenIn) (d : Daemon) (k : ℕ) (p : Proc)
    → IsFramed ring
    → proc_by_id d.table d.my.id ≡ some (k, p)
    → IsDue ring i d k
    → d.token_alive ≡ true
    → i.bytes ≡ 32 + i.header.rtr_len
    → leads_ring d ≡ some leads
    → (judge leads d.last_token.kind i.header.kind).1 ≡ take_it
    → (d' : Daemon) × (handle_token i d ≡ some d')
      × Follows ring (see_seq i.header.seq d.store).highest_seq d d'
unfolding handle_token Follows
handle_token-Follows ring leads i d k p f here due alive bytes leader taken =
    let kind = (judge leads d.last_token.kind i.header.kind).0 in
    let s = record d.store { last_token = record d.last_token { kind = kind } } in
    let noted = with_store d s in
    let (d', e, w) = take_token-Follows ring leads i noted k p f here (record {
      regular = due.regular;
      sound = framed_in-IsSound ring d.store s due.sound;
      small = due.small;
      whole = due.whole;
      turn = due.turn;
      space = due.space;
      young = due.young;
    }) in
    let all : (i.bytes == 32 + i.header.rtr_len) ≡ true =
      rw bytes (==_refl (32 + i.header.rtr_len)) in
    (
      d',
      ap
            (λ b.
              if not b
              then some d
              else (if not (i.bytes == 32 + i.header.rtr_len)
                  then some d
                  else (do leads' ← leads_ring d; decides leads')))
            alive
          ∙ ap (λ b. if not b then some d else (do leads' ← leads_ring d; decides leads')) all
          ∙ ap (λ o. o >>= decides) leader
          ∙ ap decide taken
          ∙ e,
      w,
    )
  where
    decides : Bool → Option Daemon
    decides leads' =
        let x = judge leads' d.last_token.kind i.header.kind in
        let s = record d.store { last_token = record d.last_token { kind = x.0 } } in
        elim x.1 [
          | swallow ↦ some (with_store d s)
          | resend_last ↦ token_hurry (with_store d s)
          | take_it ↦ take_token leads' i (with_store d s)
        ]

    kind' : ℕ
    kind' = (judge leads d.last_token.kind i.header.kind).0

    noted' : Daemon
    noted' = with_store d (record d.store { last_token = record d.last_token { kind = kind' } })

    decide : Verdict → Option Daemon
    decide v = elim v [
      | swallow ↦ some noted'
      | resend_last ↦ token_hurry noted'
      | take_it ↦ take_token leads i noted'
    ]
