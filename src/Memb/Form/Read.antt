-- ===== src/Memb/Form/Read.antt =====
-- daemon/membership.c: `Read_form2`, and the handlers of the form tokens by state. `none` is an exit, and a
-- token whose type is not that of what it carries.
use in5020_distribuerte_syst.Prelude.{
  ℕ, suc, ◌+◌, ◌-◌, Bool, true, false, ◌&&◌, ltb, ◌==◌, if◌then◌else◌, List, [], ◌∷◌, Option, none,
  some, get_elem?, set, length, get_or, take, ℤ, pos, negsuc, ltb_ℤ, ◌+ℤ◌, ◌>>=◌,
}
use in5020_distribuerte_syst.Conf.{Proc, Configuration, proc_by_id, append_id_to_seg, leader, last}
use in5020_distribuerte_syst.Flow.{new_configuration}
use in5020_distribuerte_syst.Prot.Store.{
  Store, MembershipId, TokenHeader, pack_entry, put, token, has_bits,
}
use in5020_distribuerte_syst.Prot.Deliver.{discard_old}
use in5020_distribuerte_syst.Prot.Token.{memb_is_equal, hand_over}
use in5020_distribuerte_syst.Memb.Members.{MembersInfo}
use in5020_distribuerte_syst.Memb.Rings.{
  RingInfo, Middle, gathered, no_id_yet, numbered, FormToken, form1_type, form2_type,
}
use in5020_distribuerte_syst.Memb.State.{
  Daemon, op, seg, represented, gather, form, evs, Send, start, send, token_loss_call,
}
use in5020_distribuerte_syst.Memb.Shift.{enter}
use in5020_distribuerte_syst.Memb.Loss.{emptied}
use in5020_distribuerte_syst.Memb.Form.{write_from}
use in5020_distribuerte_syst.Memb.Form.Fill.{own_of, fill_form1}

-- A time that no membership has had: that of the clock, or one second behind the last one used.
unfoldable pub stamp : Daemon → ℤ × Daemon
stamp d =
    let now = (d.clock d.readings).sec in
    let t = if ltb_ℤ d.last_time_used now then now else d.last_time_used +ℤ pos 1 in
    (t, record d { readings = suc d.readings; last_time_used = t })

abbrev pub is_zero : ℤ → Bool
is_zero (pos n) = n == 0
is_zero (negsuc n) = false

-- The first one gives the membership its id, and keeps the time before for its transitional one.
unfoldable pub number : (first : Bool) → Middle → Daemon → Option (MembershipId × (ℤ × Daemon))
unfolding stamp
number true middle d =
    let (t, d') = stamp d in
    let next = t +ℤ pos 1 in
    some (record { proc_id = d.my.id; time = next }, (t, record d' { last_time_used = next }))
number false (numbered id) d = some (id, (pos 0, d))
number false _ d = none

-- The loop that builds `Future_membership`; `none` is an exit, and a segment outside the array.
pub build : List Proc → List ℕ → Configuration → Option Configuration
build table [] c = some c
build table (x ∷ xs) c = proc_by_id table x >>= λ p. get_elem? c.segments p.1.seg_index >>= λ s.
    append_id_to_seg table s p.1.id >>= λ s'.
    build table xs (record c { segments = set c.segments p.1.seg_index s' })

-- The loop that makes a dummy of each hole.
unfoldable pub make_dummies : List ℕ → (ℕ → ℕ) → Option (ℕ → ℕ)
make_dummies [] exist = some exist
make_dummies (q ∷ qs) exist =
    if exist (pack_entry q) == 0 then make_dummies qs (put exist (pack_entry q) 3) else none

-- The time of the transitional membership, from the first of its ring.
unfoldable pub time_ring : RingInfo → (memb_time : ℤ) → Daemon → ℤ × Daemon
unfolding stamp
time_ring r memb_time d =
    if is_zero r.trans_time
    then (if is_zero memb_time then stamp d else (memb_time, d))
    else (r.trans_time, d)

-- The time written into the last ring of the id.
pub time_last : MembershipId → ℤ → List RingInfo → List RingInfo
unfolding own_of
time_last id t [] = []
time_last id t (r ∷ rs) =
    let rest = time_last id t rs in
    elim (own_of id rs) [
      | some x ↦ r ∷ rest
      | none ↦ if memb_is_equal r.memb_id id then record r { trans_time = t } ∷ rs else r ∷ rest
    ]

-- The state of the packets, as the ring has agreed on it: up to the aru all is delivered, and what none
-- has is a dummy.
unfoldable pub agree : RingInfo → Store → Option Store
unfolding discard_old make_dummies
agree r s = do
  s' ← discard_old (record s { highest_seq = r.highest_seq; aru = r.aru })
  exist ← make_dummies r.holes s'.exist
  some (record s' { exist = exist })

-- The first regular token of the new ring.
abbrev pub first_token : FormToken → (last_seq : ℕ) → TokenHeader
first_token t last_seq = record {
  kind = 0;
  seq = 0;
  proc_id = t.proc_id;
  aru = last_seq;
  aru_last_id = t.aru_last_id;
  flow_control = pos 0;
  rtr_len = 0;
}

-- The token goes on, or the last one of the ring makes a regular one of it.
unfoldable pub pass_form2 : (is_last : Bool) → FormToken → Daemon → Daemon
unfolding send
pass_form2 false t d =
    let told = send (Send.send_form t) (send (Send.send_form t) d) in
    record told { store = record told.store { token_rounds = 0 } }
pass_form2 true t d = record d {
  store = record d.store {
    token_rounds = 1;
    net = (hand_over (token (first_token t d.last_seq) []) d.net).1;
  };
}

-- The future membership of the processes on the token.
unfoldable pub announce : MembershipId → MembersInfo → Daemon → Option Daemon
unfolding build
announce id m d =
    build d.table (take (m.num_members + m.num_pending) m.members) (emptied d.cn) >>= λ c.
    some (record d { future_membership_id = id; future_membership = c })

-- The state EVS, with a token.
unfoldable pub enter_evs : Daemon → Daemon
unfolding enter start
enter_evs d =
    let timed = start token_loss_call d.timeouts.token (record d { token_alive = true }) in
    enter evs (record timed {
      store = record timed.store {
        last_token = record timed.last_token { kind = 0; seq = 0; aru = 0 };
      };
    })

-- The commit set of the future, of which the transitional members are the first.
abbrev pub commit_of : RingInfo → MembersInfo → MembersInfo
commit_of r m = record m {
  num_members = length r.procs;
  num_pending = r.num_trans;
  members = write_from 0 r.procs m.members;
}

-- The token as it goes on.
abbrev pub passed_on :
    FormToken → (my : ℕ) → MembersInfo → MembershipId → (own : MembershipId) → ℤ → FormToken
passed_on t my m id own time = record t {
  proc_id = my;
  members = m;
  middle = numbered id;
  rings = time_last own time t.rings;
}

-- `Read_form2` behind the validity check, for the members `m`, on which the process is counted.
unfoldable pub read_behind : FormToken → MembersInfo → Daemon → Option Daemon
unfolding number announce own_of agree write_from time_ring time_last last pass_form2 enter_evs
read_behind t m d = do
  x ←
      number (m.num_members == 1) t.middle
        (record d { store = record d.store { last_seq = t.seq } })
  told ← announce x.0 m x.1.1
  r ← own_of told.membership_id t.rings
  s ← agree r (new_configuration told.store)
  let y =
      time_ring r x.1.0
        (record told { store = s; future_commit_set = commit_of r told.future_commit_set })
  last_one ← last told.future_membership
  let t' = passed_on t d.my.id m x.0 told.membership_id y.0
  some (enter_evs (pass_form2 (last_one == d.my.id) t' (record y.1 { f_trans_memb_time = y.0 })))

unfoldable pub read_form2 : FormToken → Daemon → Option Daemon
unfolding read_behind
read_form2 t d =
    let m = t.members in
    if (get_or m.members m.num_members 0 == d.my.id) && ltb 0 m.num_pending
    then read_behind t
        (record m { num_members = suc m.num_members; num_pending = m.num_pending - 1 }) d
    else some d

-- `Memb_handle_form1`.
unfoldable pub handle_form1 : FormToken → Daemon → Option Daemon
unfolding fill_form1
handle_form1 t d = elim t.middle [
  | gathered r ↦ elim d.phase [
    | op ↦ leader d.membership >>= λ id. (if id == d.my.id then some d else fill_form1 t r d)
    | represented ↦ fill_form1 t r d
    | gather ↦ fill_form1 t r d
    | seg ↦ some d
    | form ↦ some d
    | evs ↦ some d
  ]
  | no_id_yet r ↦ none
  | numbered id ↦ none
]

-- `Memb_handle_form2`.
unfoldable pub handle_form2 : FormToken → Daemon → Option Daemon
unfolding read_form2
handle_form2 t d = elim d.phase [
  | op ↦ some d
  | seg ↦ some d
  | represented ↦ some d
  | gather ↦ some d
  | form ↦ read_form2 t d
  | evs ↦ some d
]

-- `Memb_handle_token`.
unfoldable pub handle_form_token : FormToken → Daemon → Option Daemon
unfolding handle_form1 handle_form2
handle_form_token t d =
    if has_bits t.kind form1_type
    then handle_form1 t d
    else if has_bits t.kind form2_type
    then handle_form2 t d
    else none
