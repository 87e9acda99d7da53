-- ===== src/Flow.antt =====
-- daemon/flow_control.c: the windows, FC_init, FC_new_configuration, FC_allowed and
-- FC_handle_message. A window is an int16 that is read from a packet and stored, so an integer within its range.
pub mod Window
use in5020_distribuerte_syst.Prelude.{
  ℕ, zero, suc, ◌+◌, Bool, true, false, not, ◌&&◌, ◌||◌, ◌==◌, if◌then◌else◌, ltb, List, Option,
  none, some, ◌>>=◌, is_none, get_elem?, ℤ, pos, negsuc, ltb_ℤ, ◌+ℤ◌, ◌-ℤ◌,
}
use in5020_distribuerte_syst.Conf.{Configuration, Proc, id_in_conf, num_procs, proc_by_id}
use in5020_distribuerte_syst.Prot.Store.{Store}

-- `Window` and `Personal_window`, and what GlobalStatus shows of them.
pub record Windows : Type 0 where
  pub window : ℤ
  pub personal_window : ℤ
  pub status_window : ℤ
  pub status_personal_window : ℤ

abbrev pub max_seq_gap : ℕ
max_seq_gap = 1600

abbrev pub fc_init : Windows
fc_init = record {
  window = pos 60;
  personal_window = pos 15;
  status_window = pos 60;
  status_personal_window = pos 15;
}

-- One of the three corrections of `allowed` in `FC_allowed`.
abbrev pub at_least : ℤ → ℤ → ℤ
at_least low allowed = if ltb_ℤ allowed low then low else allowed

abbrev pub at_most : ℤ → ℤ → ℤ
at_most high allowed = if ltb_ℤ high allowed then high else allowed

-- `FC_allowed`; `evs` is whether the state of the membership is EVS.
unfoldable pub fc_allowed : (evs : Bool) (highest_seq aru : ℕ) (flow_control : ℤ) → Windows → ℤ
fc_allowed evs highest_seq aru flow_control w =
    if evs
    then pos 0
    else if ltb (aru + max_seq_gap) highest_seq
    then pos 0
    else at_most w.personal_window
        (at_most w.window (at_least (pos 0) (w.window +ℤ w.personal_window -ℤ flow_control)))

-- The request of a monitor, in the byte order of the machine.
pub record Request : Type 0 where
  pub proc_id : ℕ
  pub memb_proc_id : ℕ
  pub cur_fc_buf : List ℤ

abbrev pub unless_minus_one : ℤ → ℤ → ℤ
unless_minus_one (negsuc zero) old = old
unless_minus_one (negsuc (suc n)) old = negsuc (suc n)
unless_minus_one (pos n) old = pos n

abbrev pub set_windows : ℤ → ℤ → Windows → Windows
set_windows a b w = record {
  window = unless_minus_one a w.window;
  personal_window = unless_minus_one b w.personal_window;
  status_window = unless_minus_one a w.window;
  status_personal_window = unless_minus_one b w.personal_window;
}

abbrev pub is_legal : Configuration → Request → Bool
is_legal cn r = (r.memb_proc_id == 15051963) && not (is_none (id_in_conf cn r.proc_id))

-- `FC_handle_message`; `none` is a read outside the buffer.
unfoldable pub fc_handle_message :
    (dangerous : Bool) (table : List Proc) (cn : Configuration) (my_id : ℕ)
    → Request
    → Windows
    → Option Windows
fc_handle_message dangerous table cn my_id r w =
    if not dangerous
    then some w
    else if not (is_legal cn r)
    then some w
    else proc_by_id table my_id >>= λ me. get_elem? r.cur_fc_buf (num_procs cn) >>= λ temp_window.
        get_elem? r.cur_fc_buf me.0 >>= λ temp_personal_window.
        some (set_windows temp_window temp_personal_window w)

-- `FC_new_configuration`.
abbrev pub new_configuration : Store → Store
new_configuration s = record s { last_num_retrans = 0; last_num_sent = 0 }
