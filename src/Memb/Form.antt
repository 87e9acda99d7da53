-- ===== src/Memb/Form.antt =====
-- daemon/membership.c: what the handlers of form tokens share, `Create_form1` and `Form_or_fail`. The room
-- in `rg_info_buf`, and a count of -1 members that are pending, are not modelled: the second is `none`.
pub mod Fill
pub mod Read
pub mod Sets
pub mod Holes
pub mod Told
pub mod Agree
use in5020_distribuerte_syst.Prelude.{
  ℕ, zero, suc, ◌+◌, ◌-◌, Bool, true, false, not, ◌&&◌, ◌||◌, ltb, ◌==◌, if◌then◌else◌, List, [],
  ◌∷◌, ◌++◌, Option, none, some, set, get_or, map, take, length, pos, ◌>>=◌,
}
use in5020_distribuerte_syst.Conf.{Proc, Segment, Configuration}
use in5020_distribuerte_syst.Prot.Store.{Store, MembershipId, pack_entry}
use in5020_distribuerte_syst.Memb.Members.{MembersInfo}
use in5020_distribuerte_syst.Memb.Reps.{
  RepInfo, RepsInfo, active, no_rep, potential_rep, ring_rep, smallest_rep,
}
use in5020_distribuerte_syst.Memb.Rings.{
  RingInfo, Middle, gathered, no_id_yet, FormToken, form1_type, form2_type, members_size, reps_size,
  id_size, ring_bytes,
}
use in5020_distribuerte_syst.Memb.State.{
  Daemon, op, form, Send, start, cancel, send, send_join_call, token_loss_call, token_hurry_call,
  lookup_call,
}
use in5020_distribuerte_syst.Memb.Shift.{enter, only_member, shift_to_gather}
use in5020_distribuerte_syst.Memb.Loss.{insert_quietly, add_reps, tail_of, no_reps}
use in5020_distribuerte_syst.Memb.Regular.{is_in}

-- The loop of `Sort_reps`, as that of `Sort_members`.
pub sort_reps_from : List Proc → ℕ → ℕ → RepsInfo → List RepInfo → Option (List RepInfo)
sort_reps_from table zero i temp xs = some xs
sort_reps_from table (suc n) i temp xs = smallest_rep table temp >>= λ x.
    let count = temp.num_reps - 1 in
    sort_reps_from table n (suc i)
      (record temp { num_reps = count; reps = set temp.reps x.1 (get_or temp.reps count no_rep) })
      (set xs i (get_or temp.reps x.1 no_rep))

unfoldable pub sort_reps : List Proc → RepsInfo → Option RepsInfo
unfolding sort_reps_from
sort_reps table r =
    sort_reps_from table r.num_reps 0 r r.reps >>= λ xs. some (record r { reps = xs })

-- Ids written into an array from index `i` on.
pub write_from : ℕ → List ℕ → List ℕ → List ℕ
write_from i [] xs = xs
write_from i (y ∷ ys) xs = write_from (suc i) ys (set xs i y)

-- The ids of all processes of a configuration, in order.
pub ids_of : List Segment → List ℕ
ids_of [] = []
ids_of (s ∷ ss) = map (λ p. p.id) s.procs ++ ids_of ss

abbrev pub write_members : List ℕ → MembersInfo → MembersInfo
write_members ids m = record m { num_members = length ids; members = write_from 0 ids m.members }

-- A member that is among the ids, and is not the process itself.
abbrev pub is_taken : (my : ℕ) → List ℕ → ℕ → Bool
is_taken my ids id = is_in id ids && not (id == my)

-- The members that pass.
pub without : (ℕ → Bool) → List ℕ → List ℕ
without test [] = []
without test (x ∷ xs) = let rest = without test xs in if test x then rest else x ∷ rest

abbrev pub rep_ids : RepsInfo → List ℕ
rep_ids r = map (λ x. x.proc_id) (active r)

-- The loop that updates `Potential_reps` in case of failure: the representatives of other segments.
pub add_potential : List Proc → (my_seg : ℕ) → List RepInfo → RepsInfo → Option RepsInfo
add_potential table my_seg [] r = some r
add_potential table my_seg (x ∷ xs) r =
    (if x.seg_index == my_seg
      then some r
      else insert_quietly table r (record x { kind = potential_rep }))
    >>= λ r'. add_potential table my_seg xs r'

-- The numbers from `i` on, `n` of them, whose packet is not there.
pub holes_in : (ℕ → ℕ) → (n i : ℕ) → List ℕ
holes_in exist zero i = []
holes_in exist (suc n) i =
    let rest = holes_in exist n (suc i) in if exist (pack_entry i) == 0 then i ∷ rest else rest

-- What a daemon tells of its ring, as the first of the ring: `after` is the last number that is no hole.
unfoldable pub own_ring : (after : ℕ) → Daemon → RingInfo
unfolding holes_in without
own_ring after d = record {
  memb_id = d.membership_id;
  trans_time = pos 0;
  aru = d.aru;
  highest_seq = d.highest_seq;
  holes = holes_in d.exist (d.highest_seq - after) (suc after);
  procs =
      d.my.id ∷ without (λ id. id == d.my.id) (take d.commit_set.num_members d.commit_set.members);
  num_trans = 1;
}

-- The token handed to the network twice.
abbrev pub twice : ℕ → FormToken → Daemon → Daemon
twice id t d = send (Send.ucast_form id t) (send (Send.ucast_form id t) d)

abbrev pub form1_len : List RingInfo → ℕ
form1_len rs = members_size + reps_size + ring_bytes rs

abbrev pub form2_len : List RingInfo → ℕ
form2_len rs = members_size + id_size + ring_bytes rs

-- No token of the ring from here on.
unfoldable pub enter_form : Daemon → Daemon
unfolding enter start cancel
enter_form d =
    enter form (record (cancel token_hurry_call (start token_loss_call d.timeouts.form d)) {
      token_alive = false;
    })

-- The members of a ring leader are those of its ring.
abbrev pub own_members : Daemon → MembersInfo
own_members d =
    if (get_or d.f_reps.reps 0 no_rep).kind == ring_rep
    then write_members (ids_of d.membership.segments) d.f_members
    else d.f_members

-- The members that are not representatives of their own; none is `none`.
abbrev pub first_members : Daemon → Option MembersInfo
first_members d =
    let m = own_members d in
    let valid = without (is_taken d.my.id (rep_ids d.f_reps)) (take m.num_members m.members) in
    elim valid [
      | [] ↦ none
      | x ∷ xs ↦
          some (record (write_members (x ∷ xs) m) { num_members = 1; num_pending = length xs })
    ]

-- Where a form1 token goes: to the next member, or to the next representative.
pub data Hop : Type 0 where
  to_member : ℕ → Hop
  to_rep : ℕ → Hop
  to_none : Hop

abbrev pub next_hop : MembersInfo → RepsInfo → Hop
next_hop m r =
    if ltb 0 m.num_pending
    then to_member (get_or m.members m.num_members 0)
    else if ltb r.rep_index r.num_reps
    then to_rep (get_or r.reps r.rep_index no_rep).proc_id
    else to_none

-- The token handed on: a daemon that is alone sends itself a form2 token.
unfoldable pub hand_form1 : Hop → FormToken → MembersInfo → RepsInfo → Daemon → Daemon
unfolding send
hand_form1 (to_member id) t m r d = twice id t d
hand_form1 (to_rep id) t m r d = twice id t d
hand_form1 to_none t m r d =
    let alone = record m { num_pending = 1; num_members = 0 } in
    send
      (Send.ucast_form d.my.id (record t {
        kind = form2_type;
        rtr_len = form2_len t.rings;
        members = alone;
        middle = no_id_yet r;
      }))
      (record d { f_members = alone })

-- The form1 token of its first daemon.
abbrev pub form1_token : (stale : ℕ) → MembersInfo → RepsInfo → Daemon → FormToken
form1_token stale m r d =
    let rings = own_ring d.my_aru d ∷ [] in
    record {
      kind = form1_type;
      seq = d.highest_seq + 3333;
      proc_id = d.my.id;
      aru_last_id = stale;
      rtr_len = form1_len rings;
      members = m;
      middle = gathered r;
      rings = rings;
    }

-- `Create_form1`; `stale` is what the token on the stack holds in `aru_last_id`.
unfoldable pub create_form1 : (stale : ℕ) → Daemon → Option Daemon
unfolding own_ring write_from ids_of without add_potential sort_reps hand_form1 enter_form cancel
create_form1 stale d = do
  m ← first_members d
  sorted ← sort_reps d.table d.f_reps
  let r = record sorted { rep_index = 1 }
  p ← add_potential d.table d.my.seg_index (active r) (no_reps d.potential_reps)
  let told = record d { f_members = m; f_reps = r; potential_reps = p }
  some (
      enter_form
        (cancel send_join_call (hand_form1 (next_hop m r) (form1_token stale m r d) m r told)))

-- `/* clear everything and go back to op */`
unfoldable pub back_to_op : Daemon → Daemon
unfolding enter start cancel
back_to_op d = enter op (start lookup_call d.timeouts.lookup (cancel send_join_call d))

unfoldable pub form_or_fail : (stale : ℕ) → Daemon → Option Daemon
unfolding create_form1 back_to_op shift_to_gather
form_or_fail stale d = smallest_rep d.table d.f_reps >>= λ x.
    (if x.0 == d.my.id
      then (if d.token_alive && (d.f_reps.num_reps == 1)
          then some (back_to_op d)
          else create_form1 stale d)
      else if d.token_alive
      then some (back_to_op d)
      else (add_reps d.table (tail_of (active d.f_reps)) (no_reps d.potential_reps) >>= λ p. some (
          shift_to_gather (record d {
            f_members = record (only_member d.my.id d.f_members) { num_pending = 0 };
            potential_reps = p;
          }))))
