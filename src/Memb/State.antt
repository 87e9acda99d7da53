-- ===== src/Memb/State.antt =====
-- daemon/membership.c: the variables of the protocol, with what it shares with the other parts of
-- the daemon, and the calls of E_queue, E_dequeue and Net_*.
pub mod Timers
use in5020_distribuerte_syst.Prelude.{
  ℕ, suc, ◌+◌, ◌-◌, ◌*◌, ◌%◌, Bool, true, false, List, [], ◌∷◌, ◌++◌, Option, none, some, ℤ, pos,
}
use in5020_distribuerte_syst.Events.Time.{SpTime}
use in5020_distribuerte_syst.Events.Timers.{Callback, TimeEvent, queue, dequeue}
use in5020_distribuerte_syst.Conf.{Proc, Segment, Configuration}
use in5020_distribuerte_syst.Prot.Store.{Store, MembershipId}
use in5020_distribuerte_syst.Flow.{Windows}
use in5020_distribuerte_syst.Memb.Members.{MembersInfo}
use in5020_distribuerte_syst.Memb.Reps.{RepsInfo}
use in5020_distribuerte_syst.Memb.Rings.{FormToken}

-- `State`.
pub data Phase : Type 0 where
  op seg represented gather form evs : Phase

-- The packets that these handlers send, with the header fields that they set.
pub data Packet : Type 0 where
  -- the sender, the length of the data and `F_members`
  alive : ℕ → ℕ → MembersInfo → Packet
  -- the sender, the length of the data, `F_members` and `F_reps`
  join : ℕ → ℕ → MembersInfo → RepsInfo → Packet
  -- the sender, the representative and its type
  refer : ℕ → ℕ → ℕ → Packet
  -- a message of another ring, passed on as it came: its sender
  foreign : ℕ → Packet

-- `Net_scast` to a segment and `Net_ucast` to a process; `Net_ucast_token` to a process and
-- `Net_send_token` on the ring, for form tokens.
pub data Send : Type 0 where
  scast : ℕ → Packet → Send
  ucast : ℕ → Packet → Send
  ucast_form : ℕ → FormToken → Send
  send_form : FormToken → Send

pub record Timeouts : Type 0 where
  pub token : SpTime
  pub hurry : SpTime
  pub alive : SpTime
  pub join : SpTime
  pub rep : SpTime
  pub seg : SpTime
  pub gather : SpTime
  pub form : SpTime
  pub lookup : SpTime

pub record Daemon : Type 0 where
  -- configuration.c: `My`, `Config_procs` and `Cn`
  pub my : Proc
  pub table : List Proc
  pub cn : Configuration
  -- membership.c
  pub phase : Phase
  pub token_alive : Bool
  pub my_seg_rep : ℕ
  pub foreign_found : Bool
  pub membership : Configuration
  pub membership_id : MembershipId
  pub future_membership : Configuration
  pub future_membership_id : MembershipId
  pub f_members : MembersInfo
  pub f_reps : RepsInfo
  pub potential_reps : RepsInfo
  pub commit_set : MembersInfo
  pub future_commit_set : MembersInfo
  pub reg_membership : Configuration
  pub transitional : Bool
  pub trans_membership : Configuration
  pub trans_memb_id : MembershipId
  pub f_trans_memb_time : ℤ
  pub last_time_used : ℤ
  pub commit_membership : Configuration
  pub wide_network : Bool
  -- `GlobalStatus.state` and `GlobalStatus.membership_changes`
  pub status_state : Phase
  pub membership_changes : ℕ
  -- flow_control.c, and whether a monitor may change the windows
  pub windows : Windows
  pub dangerous_monitor : Bool
  -- protocol.c
  pub store : Store
  pub open store use *
  -- events.c: the timers, the delays, and what `gettimeofday` returns at each of its calls
  pub timers : List TimeEvent
  pub timeouts : Timeouts
  pub clock : ℕ → SpTime
  pub readings : ℕ
  -- what has been handed to the network, oldest first
  pub sent : List Send

-- The callbacks of this file, and `Prot_token_hurry`; their code is 0 and their data NULL.
abbrev pub callback : ℕ → Callback
callback n = record { func = n; code = 0; arg = 0 }

abbrev pub scast_alive_call : Callback
scast_alive_call = callback 1

abbrev pub gather_or_represented_call : Callback
gather_or_represented_call = callback 2

abbrev pub shift_to_seg_call : Callback
shift_to_seg_call = callback 3

abbrev pub send_join_call : Callback
send_join_call = callback 4

abbrev pub form_or_fail_call : Callback
form_or_fail_call = callback 5

abbrev pub token_loss_call : Callback
token_loss_call = callback 6

abbrev pub lookup_call : Callback
lookup_call = callback 7

abbrev pub token_hurry_call : Callback
token_hurry_call = callback 8

-- E_queue reads the clock once.
unfoldable pub start : Callback → SpTime → Daemon → Daemon
start c delta d = record d {
  timers = queue (d.clock d.readings) c delta d.timers;
  readings = suc d.readings;
}

unfoldable pub cancel : Callback → Daemon → Daemon
cancel c d = record d { timers = (dequeue c d.timers).1 }

unfoldable pub send : Send → Daemon → Daemon
send s d = record d { sent = d.sent ++ s ∷ [] }

abbrev pub zero_timeout : SpTime
zero_timeout = record { sec = pos 0; usec = pos 0 }

-- -1 as the bits of a process id.
abbrev pub no_id : ℕ
no_id = 0xffff_ffff
