-- ===== src/Prot/Evs.antt =====
-- daemon/protocol.c: `Discard_packets` in state EVS, which delivers what is left of the old ring and
-- installs the new membership. `none` is an exit. The reload of a configuration is not modelled.
use in5020_distribuerte_syst.Prelude.{
  ℕ, zero, suc, ◌-◌, Bool, true, false, not, ◌||◌, ◌==◌, ltb, leb, if◌then◌else◌, is_none, [], ◌∷◌,
  Option, none, some, negsuc, ◌>>=◌,
}
use in5020_distribuerte_syst.Conf.{Configuration, id_in_conf}
use in5020_distribuerte_syst.Memb.Members.{max_procs_ring}
use in5020_distribuerte_syst.Memb.State.{Daemon}
use in5020_distribuerte_syst.Memb.Regular.{is_evs, transitional_memb, regular_memb}
use in5020_distribuerte_syst.Prot.Store.{Store, Header, DownQueue, put, pack_entry, is_safe}
use in5020_distribuerte_syst.Prot.Deliver.{deliver_packet, free, discard_old}

-- A packet delivered, if it was not yet.
abbrev pub deliver_left : ℕ → Store → Option Store
deliver_left e s = if s.exist e == 1 then deliver_packet e s else some s

-- The first loop: up to a hole or a safe message.
pub before_trans : ℕ → ℕ → Store → Option Store
before_trans zero i s = some s
before_trans (suc n) i s =
    if s.exist (pack_entry i) == 0
    then none
    else if s.exist (pack_entry i) == 3
    then some s
    else if is_safe (s.head (pack_entry i))
    then some s
    else deliver_left (pack_entry i) s >>= λ s'.
        before_trans n (suc i) (record (free (pack_entry i) s') { last_discarded = i })

abbrev pub is_committed : Configuration → Header → Bool
is_committed c h = not (is_none (id_in_conf c h.proc_id))

-- The second loop: behind a hole only what the committed members sent.
pub after_trans : Configuration → Bool → ℕ → ℕ → Store → Option Store
after_trans c found_hole zero i s = some s
after_trans c found_hole (suc n) i s =
    if s.exist (pack_entry i) == 0
    then none
    else if s.exist (pack_entry i) == 3
    then after_trans c true n (suc i) (free (pack_entry i) s)
    else if not found_hole || is_committed c (s.head (pack_entry i))
    then (deliver_left (pack_entry i) s >>= λ s'.
        after_trans c found_hole n (suc i) (free (pack_entry i) s'))
    else after_trans c found_hole n (suc i) (free (pack_entry i) s)

abbrev pub restart : DownQueue → DownQueue
restart q = elim q.links [ [] ↦ q | l ∷ ls ↦ record q { cur_element = 0 } ]

-- A message that was sent in part starts again, and no part of a message is left.
abbrev pub drop_parts : Store → Store
drop_parts s = record s {
  down_queue = put s.down_queue s.down_type (restart (s.down_queue s.down_type));
  up_queue = λ q. if ltb q max_procs_ring then none else s.up_queue q;
}

abbrev pub fresh_ring : Store → Store
fresh_ring s = record s {
  last_token = record s.last_token { aru = 0 };
  highest_seq = 0;
  highest_fifo_seq = 0;
  my_aru = 0;
  aru = 0;
  set_aru = negsuc 0;
  last_discarded = 0;
  last_delivered = 0;
  token_counter = 0;
}

abbrev pub with_store : Daemon → Store → Daemon
with_store d s = record d { store = s }

unfoldable pub discard_evs : Daemon → Option Daemon
unfolding before_trans after_trans
discard_evs d = do
  s ← before_trans (d.highest_seq - d.last_discarded) (suc d.last_discarded) d.store
  t ← transitional_memb (with_store d s)
  s' ←
      after_trans t.commit_membership false (t.highest_seq - t.last_discarded)
        (suc t.last_discarded) t.store
  r ← regular_memb (with_store t (drop_parts s'))
  some (with_store r (fresh_ring r.store))

-- `Discard_packets`.
unfoldable pub discard_packets : Daemon → Option Daemon
unfolding discard_evs
discard_packets d =
    if leb d.aru d.last_discarded
    then some d
    else if is_evs d.phase
    then (if d.aru == d.last_seq then discard_evs d else some d)
    else discard_old d.store >>= λ s. some (with_store d s)
