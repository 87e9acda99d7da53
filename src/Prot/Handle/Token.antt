-- ===== src/Prot/Handle/Token.antt =====
-- daemon/protocol.c: `Prot_handle_token` on a regular token; it gives form tokens to Memb_handle_token,
-- of Memb/Form/Read.antt. `none` is an exit.
use in5020_distribuerte_syst.Prelude.{
  ℕ, suc, ◌+◌, ◌-◌, ◌%◌, Bool, not, ◌&&◌, ◌==◌, ltb, if◌then◌else◌, List, Option, some, ℤ, pos,
  pos_part, ◌+ℤ◌, ◌-ℤ◌, ◌>>=◌,
}
use in5020_distribuerte_syst.Conf.{proc_by_id}
use in5020_distribuerte_syst.Flow.{fc_allowed}
use in5020_distribuerte_syst.Memb.State.{Daemon, start, token_loss_call, token_hurry_call}
use in5020_distribuerte_syst.Memb.Regular.{is_evs, commit}
use in5020_distribuerte_syst.Memb.Loss.{token_loss}
use in5020_distribuerte_syst.Prot.Store.{Store, TokenHeader, RingRtr}
use in5020_distribuerte_syst.Prot.Deliver.{deliver_agreed, deliver_reliable}
use in5020_distribuerte_syst.Prot.Receive.{raise}
use in5020_distribuerte_syst.Prot.Send.{Sender, send_new_packets}
use in5020_distribuerte_syst.Prot.Evs.{with_store, discard_packets}
use in5020_distribuerte_syst.Prot.Token.{
  get_arq, set_arq, get_retrans, set_retrans, answer_retrans, my_requests, rtr_bytes, next_aru,
  Answers,
}
use in5020_distribuerte_syst.Prot.Handle.{
  leads_ring, holds_token, send_token, with_net, count_if, max_evs_rounds, token_hurry, judge,
  swallow, resend_last, take_it,
}

-- A token that comes: the bytes received, the header and the requests.
pub record TokenIn : Type 0 where
  pub bytes : ℕ
  pub header : TokenHeader
  pub rtrs : List RingRtr

abbrev pub sender_of : Daemon → ℕ → Sender
sender_of d index = record { id = d.my.id; index = index; memb_id = d.membership_id }

-- The number of the last packet that is known.
abbrev pub see_seq : ℕ → Store → Store
see_seq seq s = record s { highest_seq = if ltb s.highest_seq seq then seq else s.highest_seq }

-- The new `flow_control` of the token; a wrap of its 16 bits is not modelled.
abbrev pub next_flow : ℤ → Store → (num_retrans num_sent : ℕ) → ℤ
next_flow flow s num_retrans num_sent =
    flow -ℤ pos s.last_num_retrans -ℤ pos s.last_num_sent +ℤ pos num_retrans +ℤ pos num_sent

abbrev pub counted : ℕ → ℕ → Store → Store
counted num_retrans num_sent s = record s {
  last_num_retrans = num_retrans;
  last_num_sent = num_sent;
  my_aru = raise (s.highest_seq - s.my_aru) (suc s.my_aru) s.exist s.my_aru;
}

-- In EVS a daemon that has every packet commits to the new membership.
abbrev pub commit_if_done : Daemon → Daemon
commit_if_done d =
    if is_evs d.phase && (d.my_aru == d.highest_seq)
    then commit (record d { store = record d.store { my_aru = d.last_seq } })
    else d

-- The leader counts the rounds.
abbrev pub next_kind : Bool → ℕ → ℕ
next_kind leads kind =
    if leads then set_retrans (set_arq kind (suc (get_arq kind) % 16)) 0 else kind

-- The token as it is sent on, and `Set_aru`.
unfoldable pub next_token : Bool → Daemon → List RingRtr → ℤ → TokenHeader → TokenHeader × ℤ
next_token leads d rtrs flow t =
    let (aru, id, set_aru) = next_aru t d.my.id d.my_aru d.highest_seq d.set_aru in
    (
      record {
        kind = next_kind leads t.kind;
        seq = if is_evs d.phase then t.seq else d.highest_seq;
        proc_id = d.my.id;
        aru = aru;
        aru_last_id = id;
        flow_control = flow;
        rtr_len = rtr_bytes rtrs;
      },
      set_aru,
    )

-- "calculating Aru", and the token kept as the last one.
unfoldable pub keep_token : TokenHeader → Store → Store
keep_token t s =
    let aru = if ltb s.last_token.aru t.aru then s.last_token.aru else t.aru in
    record s {
      aru = aru;
      token_counter = if s.highest_seq == aru then suc s.token_counter else 0;
      token_rounds = suc s.token_rounds;
      last_token = t;
    }

abbrev pub token_timers : Bool → Daemon → Daemon
token_timers leads d =
    start token_loss_call d.timeouts.token
      (if leads then start token_hurry_call d.timeouts.hurry d else d)

-- "Deliver & discard packets", and the end of an EVS that takes too long.
unfoldable pub settle : ℕ → Daemon → Option Daemon
settle num_sent d = do
  e ← discard_packets d
  s ← deliver_agreed (is_evs e.phase) e.store
  s' ← deliver_reliable (is_evs e.phase) (suc s.highest_seq - num_sent) num_sent s
  let settled = with_store e s'
  (if is_evs e.phase && ltb max_evs_rounds s'.token_rounds
      then token_loss settled
      else some settled)

-- The token goes on, unless the leader holds it.
unfoldable pub send_on : Bool → TokenHeader → List RingRtr → Daemon → Daemon
unfolding send_token
send_on leads t rtrs d =
    let times = suc (count_if (ltb 1 (get_retrans t.kind)) 2) in
    if leads && holds_token d
    then d
    else with_store d (with_net d.store (send_token times t rtrs d.net))

-- The daemon that has computed the token, with the token and its requests.
unfoldable pub compute_token :
    Bool → TokenHeader → List RingRtr → Answers → ℕ → Daemon → TokenHeader × List RingRtr × Daemon
unfolding next_token
compute_token leads t kept a num_sent d =
    let flow = next_flow t.flow_control d.store a.num_retrans num_sent in
    let e = with_store d (counted a.num_retrans num_sent d.store) in
    let rtrs = my_requests e.store d.membership_id kept a in
    let c = commit_if_done e in
    let (t', set_aru) = next_token leads c rtrs flow t in
    (t', rtrs, with_store c (record c.store { set_aru = set_aru }))

-- What follows the requests of others, and the new packets.
unfoldable pub pass_token : Bool → TokenHeader → List RingRtr → Answers → ℕ → Daemon → Option Daemon
unfolding compute_token send_on keep_token start settle
pass_token leads t kept a num_sent d =
    let (t', rtrs, set) = compute_token leads t kept a num_sent d in
    let timed = token_timers leads (send_on leads t' rtrs set) in
    settle num_sent (with_store timed (keep_token t' timed.store))

-- The part of `Prot_handle_token` behind the tests.
unfoldable pub take_token : Bool → TokenIn → Daemon → Option Daemon
unfolding pass_token
take_token leads i d = do
  let seen = see_seq i.header.seq d.store
  x ← answer_retrans seen d.membership_id d.my.id d.my.seg_index i.rtrs
  let allowed =
      fc_allowed (is_evs d.phase) seen.highest_seq seen.aru i.header.flow_control d.windows
  me ← proc_by_id d.table d.my.id
  y ← send_new_packets (sender_of d me.0) (pos_part allowed) (with_net seen x.1.net)
  pass_token leads i.header x.0 x.1 y.0 (with_store d y.1)

-- `Prot_handle_token`.
unfoldable pub handle_token : TokenIn → Daemon → Option Daemon
unfolding take_token judge
handle_token i d =
    if not d.token_alive
    then some d
    else if not (i.bytes == 32 + i.header.rtr_len)
    then some d
    else leads_ring d >>= λ leads.
        let (last, verdict) = judge leads d.last_token.kind i.header.kind in
        let noted =
          with_store d (record d.store { last_token = record d.last_token { kind = last } }) in
        elim verdict [
          | swallow ↦ some noted
          | resend_last ↦ token_hurry noted
          | take_it ↦ take_token leads i noted
        ]
