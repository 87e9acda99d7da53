-- ===== src/Tests/Flow.antt =====
-- daemon/flow_control.c on small inputs.
use in5020_distribuerte_syst.Prelude.{
  ◌≡◌, refl, ◌⊎◌, [], ◌∷◌, some, true, false, pos, negsuc, not, ◌&&◌, ltb, ◌+◌, ◌+ℤ◌, ◌-ℤ◌, arith,
}
use in5020_distribuerte_syst.Conf.{Proc, Configuration, proc_by_id, num_procs}
use in5020_distribuerte_syst.Flow.{
  Windows, Request, max_seq_gap, fc_init, fc_allowed, fc_handle_message, is_legal,
}
use in5020_distribuerte_syst.Flow.Window.{
  IsGrant, fc_allowed-IsGrant, IsShown, fc_handle_message-IsShown,
}

abbrev machine : Proc
machine = record {
  name = [];
  port = 4803;
  seg_index = 0;
  index_in_seg = 0;
  id = 7;
  ifc = record { ip = 7; port = 4803; kind = 0 } ∷ [];
}

abbrev one_segment : Configuration
one_segment = record {
  hash_code = 0;
  segments = record { bcast_address = 0; port = 4803; procs = machine ∷ [] } ∷ [];
}

abbrev request : Request
request = record { proc_id = 7; memb_proc_id = 15051963; cur_fc_buf = pos 5 ∷ negsuc 0 ∷ [] }

fc_allowed-full : fc_allowed false 10 0 (pos 70) fc_init ≡ pos 5
unfolding fc_allowed ◌+ℤ◌ ◌-ℤ◌
fc_allowed-full = refl

fc_allowed-IsGrant_example :
    IsGrant
      (pos 60)
      (pos 15)
      (pos 60 +ℤ pos 15 -ℤ pos 70)
      (not false && not (ltb (0 + max_seq_gap) 10))
      (fc_allowed false 10 0 (pos 70) fc_init)
fc_allowed-IsGrant_example =
    fc_allowed-IsGrant false 10 0 (pos 70) fc_init (omega arith) (omega arith)

machine-found : proc_by_id (machine ∷ []) 7 ≡ some (0, machine)
unfolding proc_by_id
machine-found = refl

one_machine : num_procs one_segment ≡ 1
unfolding num_procs
one_machine = refl

fc_init-IsShown : IsShown fc_init
unfolding IsShown
fc_init-IsShown = (refl, refl)

fc_handle_message-IsShown_example :
    (w' : Windows) × (fc_handle_message true (machine ∷ []) one_segment 7 request fc_init ≡ some w')
    × IsShown w'
    × ((w' ≡ fc_init) ⊎ ((true ≡ true) × (is_legal one_segment request ≡ true)))
fc_handle_message-IsShown_example =
    fc_handle_message-IsShown true (machine ∷ []) one_segment 7 request fc_init 0 machine
      machine-found (omega arith) (omega (arith, one_machine)) fc_init-IsShown
