-- ===== src/Memb/Discipline/Packets.antt =====
-- Every handler of a packet leaves the timers that fit the state it ends in.
use in5020_distribuerte_syst.Prelude.{
  ◌%◌, ℕ, ◌≡◌, refl, true, not, ◌&&◌, if◌then◌else◌, Option, none, some, ◌==◌, ◌>>=◌,
}
use in5020_distribuerte_syst.Memb.State.{Daemon, Send, Packet, Phase, op, gather, send}
use in5020_distribuerte_syst.Memb.Shift.{
  shift_to_gather, lookup_new_members, lookup_in, lookup_in_op, is_empty, missing, asking,
  broadcast, probing,
}
use in5020_distribuerte_syst.Conf.{Proc, proc_by_id, leader, seg_leader, num_segments}
use in5020_distribuerte_syst.Memb.Reps.{RepsInfo}
use in5020_distribuerte_syst.Prot.Store.{has_bits, regular_type}
use in5020_distribuerte_syst.Memb.Handlers.{
  Incoming, alive_type, join_type, refer_type, join_of, handle_message, refer_in, foreign_in,
  handle_alive, handle_join, handle_refer, handle_foreign, pass_on,
}
use in5020_distribuerte_syst.Memb.Loss.{insert_quietly}
use in5020_distribuerte_syst.Memb.Discipline.{
  InPhase, Keeps, Keeps-if, InPhase-if, Keeps->>=, op_to_gather-InPhase, framed,
}
use in5020_distribuerte_syst.Memb.Discipline.Joins.{handle_alive-Keeps, handle_join-Keeps}

refer_in-Keeps : (s : Phase) (rep kind : ℕ) (d : Daemon) → InPhase d → Keeps (refer_in s rep kind d)
unfolding refer_in
refer_in-Keeps gather rep kind d v = go (proc_by_id d.table rep)
  where
    named : Proc → Option RepsInfo
    named p =
        insert_quietly d.table d.potential_reps
          (record { proc_id = p.id; kind = kind % 65536; seg_index = p.seg_index })

    go :
        (o : Option (ℕ × Proc))
        → Keeps (elim o [
          | none ↦ some d
          | some (k, p) ↦ named p >>= λ r. some (record d { potential_reps = r })
        ])
    go none = v
    go (some (k, p)) = Keeps->>= (named p) _ λ r. framed d _ v refl refl refl refl
refer_in-Keeps _ rep kind d v = v

pub handle_refer-Keeps : (rep kind : ℕ) (d : Daemon) → InPhase d → Keeps (handle_refer rep kind d)
unfolding handle_refer
handle_refer-Keeps rep kind d v = refer_in-Keeps d.phase rep kind d v

lookup_in_op-InPhase : (d : Daemon) → d.phase ≡ op → InPhase d → InPhase (lookup_in_op d)
unfolding lookup_in_op
lookup_in_op-InPhase d e v =
    InPhase-if (num_segments d.cn == 1) (shift_to_gather (broadcast d))
      (if is_empty (missing d.reg_membership d.cn.segments)
        then asking d
        else shift_to_gather (probing d))
      (op_to_gather-InPhase (broadcast d) e (framed d (broadcast d) v refl refl refl refl))
      (InPhase-if (is_empty (missing d.reg_membership d.cn.segments)) (asking d)
        (shift_to_gather (probing d)) (framed d (asking d) v refl refl refl refl)
        (op_to_gather-InPhase (probing d) e (framed d (probing d) v refl refl refl refl)))

lookup_in-InPhase : (s : Phase) (d : Daemon) → d.phase ≡ s → InPhase d → InPhase (lookup_in s d)
unfolding lookup_in
lookup_in-InPhase op d e v = lookup_in_op-InPhase d e v
lookup_in-InPhase _ d e v = v

pub lookup_new_members-InPhase : (d : Daemon) → InPhase d → InPhase (lookup_new_members d)
unfolding lookup_new_members
lookup_new_members-InPhase d v = lookup_in-InPhase d.phase d refl v

pass_on-Keeps : (lead sender : ℕ) (d : Daemon) → InPhase d → Keeps (pass_on lead sender d)
unfolding pass_on send
pass_on-Keeps lead sender d v = go (seg_leader d.membership d.my.seg_index)
  where
    message : Send
    message = Send.ucast lead (Packet.foreign sender)

    passed : Daemon
    passed = send message (send message (record d { foreign_found = true }))

    go :
        (o : Option ℕ)
        → Keeps (elim o [
          | none ↦ none
          | some id ↦ some (if id == d.my.id && not d.foreign_found then passed else d)
        ])
    go none = tt
    go (some id) =
        InPhase-if (id == d.my.id && not d.foreign_found) passed d
          (framed d passed v refl refl refl refl) v

foreign_in-Keeps :
    (s : Phase) (sender : ℕ) (d : Daemon) → d.phase ≡ s → InPhase d → Keeps (foreign_in s sender d)
unfolding foreign_in
foreign_in-Keeps op sender d e v = go (proc_by_id d.table sender)
  where
    reply : Option Daemon
    reply = leader d.membership >>= λ lead.
        (if lead == d.my.id then some (lookup_new_members d) else pass_on lead sender d)

    go : (o : Option (ℕ × Proc)) → Keeps (elim o [ none ↦ some d | some (k, p) ↦ reply ])
    go none = v
    go (some (k, p)) = Keeps->>= (leader d.membership) _ λ lead.
        Keeps-if (lead == d.my.id) (some (lookup_new_members d)) (pass_on lead sender d)
          (lookup_new_members-InPhase d v) (pass_on-Keeps lead sender d v)
foreign_in-Keeps _ sender d e v = v

pub handle_foreign-Keeps : (sender : ℕ) (d : Daemon) → InPhase d → Keeps (handle_foreign sender d)
unfolding handle_foreign
handle_foreign-Keeps sender d v = foreign_in-Keeps d.phase sender d refl v

-- From a state that `GlobalStatus` shows, that the token fits, and in which only timers of that
-- state wait, each once, `Memb_handle_message` of any packet exits or ends in such a state again.
pub handle_message-Keeps : (m : Incoming) (d : Daemon) → InPhase d → Keeps (handle_message m d)
unfolding handle_message
handle_message-Keeps m d v =
    Keeps-if (has_bits m.kind alive_type) (handle_alive m.sender d) others
      (handle_alive-Keeps m.sender d v)
      (Keeps-if (has_bits m.kind join_type) (handle_join (join_of m) d) last_two
        (handle_join-Keeps (join_of m) d v)
        (Keeps-if (has_bits m.kind refer_type) (handle_refer m.memb_proc_id m.memb_time d) last_one
          (handle_refer-Keeps m.memb_proc_id m.memb_time d v)
          (Keeps-if (has_bits m.kind regular_type) (handle_foreign m.sender d) none
            (handle_foreign-Keeps m.sender d v) tt)))
  where
    last_one : Option Daemon
    last_one = if has_bits m.kind regular_type then handle_foreign m.sender d else none

    last_two : Option Daemon
    last_two =
        if has_bits m.kind refer_type then handle_refer m.memb_proc_id m.memb_time d else last_one

    others : Option Daemon
    others = if has_bits m.kind join_type then handle_join (join_of m) d else last_two
