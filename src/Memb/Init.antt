-- ===== src/Memb/Init.antt =====
-- daemon/membership.c: `Memb_init`, and the state that it leaves. `none` is an exit, and a read of the first
-- process of a segment that has none.
use in5020_distribuerte_syst.Prelude.{
  ℕ, Bool, true, false, ◌==◌, if◌then◌else◌, List, [], ◌∷◌, Option, none, some, pos, negsuc, ◌>>=◌,
}
use Prim.Native.Nat.{bit_and}
use in5020_distribuerte_syst.Events.Time.{SpTime}
use in5020_distribuerte_syst.Conf.{Segment, first_id, num_segments}
use in5020_distribuerte_syst.Memb.State.{Daemon, op, Timeouts}
use in5020_distribuerte_syst.Memb.State.Timers.{Only}
use in5020_distribuerte_syst.Memb.Shift.{enter}
use in5020_distribuerte_syst.Memb.Loss.{append_at, emptied, token_loss}
use in5020_distribuerte_syst.Memb.Discipline.{
  Keeps, Keeps->>=, Keeps-some, allowed, token_loss-InPhase,
}

abbrev seconds : ℕ → SpTime
seconds n = record { sec = pos n; usec = pos 0 }

abbrev subnet : ℕ → ℕ
subnet id = bit_and id 0xffff_0000

-- Whether a segment is of another subnet than the first.
pub other_subnet : ℕ → List Segment → Option Bool
other_subnet reference [] = some false
other_subnet reference (s ∷ ss) = first_id s.procs >>= λ id.
    (if subnet id == reference then other_subnet reference ss else some true)

pub is_wide : List Segment → Option Bool
unfolding other_subnet
is_wide [] = none
is_wide (s ∷ ss) = first_id s.procs >>= λ id. other_subnet (subnet id) ss

-- The timeouts, of a wide network or not. A single segment is probed less often.
abbrev pub timeouts_of : (wide one_segment : Bool) → Timeouts
timeouts_of wide one_segment = record {
  token = seconds (if wide then 20 else 5);
  hurry = seconds (if wide then 6 else 2);
  alive = seconds 1;
  join = seconds 1;
  rep = if wide then seconds 5 else record { sec = pos 2; usec = pos 500000 };
  seg = seconds 2;
  gather = seconds (if wide then 10 else 5);
  form = seconds (if wide then 10 else 5);
  lookup = seconds (if one_segment then 300 else if wide then 90 else 60);
}

-- The daemon alone, in OP, before it gives up the token.
unfoldable pub alone : (wide : Bool) → Daemon → Daemon
unfolding enter
alone wide d =
    let self = append_at d.table (emptied d.cn) d.my.seg_index d.my.id in
    record (enter op d) {
      membership_changes = 0;
      wide_network = wide;
      timeouts = timeouts_of wide (num_segments d.cn == 1);
      membership = self;
      membership_id = record { proc_id = d.my.id; time = negsuc 0 };
      last_time_used = negsuc 0;
      transitional = false;
      reg_membership = self;
    }

-- `Memb_init`.
unfoldable pub memb_init : Daemon → Option Daemon
unfolding is_wide alone
memb_init d = is_wide d.cn.segments >>= λ wide. token_loss (alone wide d)

-- Where no timer of the protocol waits but those of state OP, Memb_init exits or leaves a state that the token and
-- the timers fit.
pub memb_init-Keeps : (d : Daemon) → Only (allowed op d.token_alive) d.timers → Keeps (memb_init d)
unfolding memb_init alone
memb_init-Keeps d o =
    Keeps->>= (is_wide d.cn.segments) _ λ wide.
      Keeps-some (token_loss (alone wide d)) (λ t e. token_loss-InPhase (alone wide d) t o e)
