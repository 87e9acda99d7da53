-- ===== src/Prot/Handle.antt =====
-- daemon/protocol.c: `Prot_handle_bcast`, `Prot_handle_token`, `Prot_token_hurry`, `Handle_hurry` and
-- `Prot_new_message` on the state of the whole daemon. Packets are in the byte order of the machine.
-- `none` is an exit.
pub mod Rounds
pub mod Token
pub mod Turn
pub mod Whole
use in5020_distribuerte_syst.Prelude.{
  ℕ, zero, suc, ◌+◌, ◌-◌, ◌%◌, Bool, true, false, not, ◌&&◌, ◌||◌, ◌==◌, ltb, leb, if◌then◌else◌,
  is_none, List, [], ◌∷◌, ◌++◌, Option, none, some, ℤ, pos, negsuc, ltb_ℤ, pos_part, ◌+ℤ◌, ◌-ℤ◌,
  ◌>>=◌,
}
use in5020_distribuerte_syst.Conf.{Configuration, id_in_conf, leader, seg_last, proc_by_id}
use in5020_distribuerte_syst.Flow.{Request, fc_allowed, fc_handle_message}
use in5020_distribuerte_syst.Memb.State.{
  Daemon, Phase, op, seg, represented, gather, form, evs, start, token_loss_call, token_hurry_call,
}
use in5020_distribuerte_syst.Memb.Regular.{is_evs, active_ptr, commit}
use in5020_distribuerte_syst.Memb.Loss.{token_loss}
use in5020_distribuerte_syst.Memb.Handlers.{Incoming, handle_message}
use in5020_distribuerte_syst.Prot.Store.{
  Store, Header, Part, DownLink, TokenHeader, RingRtr, Net, Wire, token, has_bits, regular_type,
}
use in5020_distribuerte_syst.Prot.Deliver.{deliver_agreed, deliver_reliable}
use in5020_distribuerte_syst.Prot.Receive.{unpack, insert_packets, raise}
use in5020_distribuerte_syst.Prot.Send.{Sender, enqueue, send_new_packets}
use in5020_distribuerte_syst.Prot.Evs.{with_store, discard_packets}
use in5020_distribuerte_syst.Prot.Token.{
  get_arq, set_arq, get_retrans, set_retrans, memb_is_equal, hand_over, answer_retrans, my_requests,
  rtr_bytes, next_aru, Answers,
}

abbrev pub max_evs_rounds : ℕ
max_evs_rounds = 500

-- `Conf_leader( Memb_active_ptr() ) == My.id`; an empty membership is an exit.
abbrev pub leads_ring : Daemon → Option Bool
leads_ring d = leader (active_ptr d) >>= λ id. some (id == d.my.id)

abbrev pub is_op_or_gather : Daemon → Bool
is_op_or_gather d = elim d.phase [ op ↦ true | gather ↦ d.token_alive | _ ↦ false ]

-- `Is_token_hold` and `To_hold_token`, whose bodies are the same.
unfoldable pub holds_token : Daemon → Bool
holds_token d =
    is_op_or_gather d
    && (leb (get_retrans d.last_token.kind) 1
        && ((d.aru == d.highest_seq) && ltb 1 d.token_counter))

-- The token handed to the network `n` times.
pub send_token : ℕ → TokenHeader → List RingRtr → Net → Net
send_token zero t rs n = n
send_token (suc k) t rs n = send_token k t rs (hand_over (token t rs) n).1

abbrev pub with_net : Store → Net → Store
with_net s n = record s { net = n }

-- `seg_last == My.id` on a wide network.
abbrev pub ends_segment : Daemon → Option Bool
ends_segment d =
    if d.wide_network
    then (seg_last (active_ptr d) d.my.seg_index >>= λ id. some (id == d.my.id))
    else some false

abbrev pub count_if : Bool → ℕ → ℕ
count_if b k = if b then k else 0

-- `Last_token` as it is sent again: the leader counts it.
abbrev pub hurried : Bool → TokenHeader → TokenHeader
hurried leads t = record t {
  rtr_len = 0;
  kind = if leads then set_retrans t.kind (suc (get_retrans t.kind)) else t.kind;
}

-- `Prot_token_hurry`.
unfoldable pub token_hurry : Daemon → Option Daemon
unfolding start send_token
token_hurry d = do
  leads ← leads_ring d
  let t = hurried leads d.last_token
  let counted = with_store d (record d.store { last_token = t })
  let waits = if leads then start token_hurry_call d.timeouts.hurry counted else counted
  twice ← ends_segment d
  let times = suc (count_if twice 1 + count_if (ltb 1 (get_retrans t.kind)) 2)
  some (with_store waits (with_net waits.store (send_token times t [] waits.net)))

-- `Handle_hurry`, for the sender of the packet.
unfoldable pub handle_hurry : ℕ → Daemon → Option Daemon
unfolding token_hurry holds_token
handle_hurry sender d = leads_ring d >>= λ leads.
    (if leads && holds_token d && not (is_none (id_in_conf (active_ptr d) sender))
      then token_hurry d
      else some d)

-- A datagram as `Net_recv` leaves it in `New_pack`: its bytes, the first header, and what follows, which
-- is `message` or `request` where the packet is of those kinds.
pub record Datagram : Type 0 where
  pub bytes : ℕ
  pub first : Header
  pub buffer : List Part
  pub message : Incoming
  pub request : Request

abbrev pub status_type : ℕ
status_type = 0x1000000

abbrev pub fc_type : ℕ
fc_type = 0x4000000

abbrev pub membership_type : ℕ
membership_type = 0x700

abbrev pub hurry_type : ℕ
hurry_type = 0x40

-- A packet of the ring shows that the token is not lost.
unfoldable pub restart_timers : Daemon → Option Daemon
unfolding start
restart_timers d =
    let lasts = start token_loss_call d.timeouts.token d in
    if d.token_alive
    then (leads_ring d >>= λ leads.
        some (if leads then start token_hurry_call d.timeouts.hurry lasts else lasts))
    else some d

-- `Prot_handle_bcast`, for all packets but the requests to reload the configuration. A status request
-- changes nothing here.
unfoldable pub handle_bcast : Datagram → Daemon → Option Daemon
unfolding restart_timers handle_hurry
handle_bcast g d =
    if has_bits g.first.kind status_type
    then some d
    else if has_bits g.first.kind fc_type
    then (fc_handle_message d.dangerous_monitor d.table d.cn d.my.id g.request d.windows >>= λ w.
        some (record d { windows = w }))
    else if has_bits g.first.kind membership_type
    then handle_message g.message d
    else if has_bits g.first.kind hurry_type
    then handle_hurry g.first.proc_id d
    else if not (has_bits g.first.kind regular_type)
    then some d
    else if not (memb_is_equal d.membership_id g.first.memb_id)
    then handle_message g.message d
    else restart_timers d >>= λ r. unpack g.bytes g.first g.buffer >>= λ packets.
        insert_packets (is_evs r.phase) r.table packets r.store >>= λ s. some (with_store r s)

-- `Prot_new_message`: where the token is held, the leader sends it on, or is asked to.
unfoldable pub new_message : DownLink → Daemon → Option (Bool × Daemon)
unfolding enqueue handle_hurry
new_message l d =
    let (only, s) = enqueue l d.store in
    let queued = with_store d s in
    if only && holds_token queued
    then (leads_ring queued >>= λ leads.
        if leads
        then (handle_hurry d.my.id queued >>= λ d'. some (false, d'))
        else some (true, queued))
    else some (false, queued)

-- What the daemon does with a token that comes: it swallows it, sends the last one again, or takes it.
pub data Verdict : Type 0 where
  swallow resend_last take_it : Verdict

unfoldable pub judge : (leads : Bool) (last kind : ℕ) → ℕ × Verdict
judge leads last kind =
    if leads
    then (last, if get_arq kind == get_arq last then take_it else swallow)
    else if get_arq kind == get_arq last
    then (if ltb (get_retrans last) (get_retrans kind)
        then (set_retrans last (get_retrans kind), resend_last)
        else (last, swallow))
    else if get_arq kind == suc (get_arq last) % 16
    then (last, take_it)
    else (last, swallow)
