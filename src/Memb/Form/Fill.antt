-- ===== src/Memb/Form/Fill.antt =====
-- daemon/membership.c: `Fill_form1`. Packets are in the byte order of the machine. `none` is an exit, and
-- a count of -1 members that are pending.
use in5020_distribuerte_syst.Prelude.{
  ℕ, zero, suc, ◌+◌, ◌-◌, Bool, not, ◌&&◌, ◌||◌, ltb, ◌==◌, if◌then◌else◌, List, [], ◌∷◌, ◌++◌,
  Option, none, some, get_or, take, length, replicate, pos, ◌>>=◌,
}
use in5020_distribuerte_syst.Prot.Store.{MembershipId, pack_entry}
use in5020_distribuerte_syst.Prot.Token.{memb_is_equal}
use in5020_distribuerte_syst.Memb.Members.{MembersInfo, insert_member, sort_members}
use in5020_distribuerte_syst.Memb.Reps.{RepInfo, RepsInfo, active, no_rep, seg_rep, ring_rep}
use in5020_distribuerte_syst.Memb.Rings.{
  RingInfo, gathered, no_id_yet, FormToken, form2_type, max_form_reps,
}
use in5020_distribuerte_syst.Memb.State.{
  Daemon, op, seg, represented, gather, form, evs, cancel, send, send_join_call, form_or_fail_call,
  shift_to_seg_call,
}
use in5020_distribuerte_syst.Memb.Loss.{no_reps}
use in5020_distribuerte_syst.Memb.Regular.{is_in}
use in5020_distribuerte_syst.Memb.Form.{
  write_from, ids_of, write_members, is_taken, without, rep_ids, add_potential, holes_in, own_ring,
  twice, form1_len, form2_len, enter_form, next_hop, to_member, to_rep, to_none,
}

-- The members and the representatives on the token.
pub record Lists : Type 0 where
  pub members : MembersInfo
  pub reps : RepsInfo

-- The token is at the next pending member.
unfoldable pub fill_member : (my : ℕ) → Lists → Option Lists
fill_member my l =
    let m = l.members in
    if (get_or m.members m.num_members 0 == my) && ltb 0 m.num_pending
    then some (record l {
      members = record m { num_members = suc m.num_members; num_pending = m.num_pending - 1 };
    })
    else none

abbrev pub next_rep : RepsInfo → RepInfo
next_rep r = get_or r.reps r.rep_index no_rep

-- The members of the daemon that are neither on the token nor representatives.
unfoldable pub own_valid : Lists → Daemon → List ℕ
unfolding without
own_valid l d =
    without
      (λ id.
        is_in id (take l.members.num_members l.members.members)
        || (is_taken d.my.id (rep_ids l.reps) id || is_taken d.my.id (rep_ids d.f_reps) id))
      (take d.f_members.num_members d.f_members.members)

-- The representative adds its own, of which it is the first; the others are pending.
abbrev pub add_own : List ℕ → Lists → Option Lists
add_own [] l = none
add_own (x ∷ xs) l = some (record {
  members = record l.members {
    num_members = suc l.members.num_members;
    num_pending = length xs;
    members = write_from l.members.num_members (x ∷ xs) l.members.members;
  };
  reps = record l.reps { rep_index = suc l.reps.rep_index };
})

-- The part of `Fill_form1` for a representative, with the new `F_members`; `none` is an exit.
unfoldable pub fill_rep : Lists → Daemon → Option (Lists × Daemon)
unfolding write_from ids_of own_valid
fill_rep l d =
    let valid = own_valid l d in
    let d' = record d { f_members = write_members valid d.f_members } in
    (if (next_rep l.reps).kind == seg_rep
      then add_own valid l
      else if (next_rep l.reps).kind == ring_rep
      then add_own (ids_of d.membership.segments) l
      else none)
    >>= λ l'. some (l', d')

-- The ring of the id, the last one if there are more.
unfoldable pub own_of : MembershipId → List RingInfo → Option RingInfo
own_of id [] = none
own_of id (r ∷ rs) = elim (own_of id rs) [
  | some x ↦ some x
  | none ↦ if memb_is_equal r.memb_id id then some r else none
]

pub other_rings : MembershipId → List RingInfo → List RingInfo
other_rings id [] = []
other_rings id (r ∷ rs) =
    let rest = other_rings id rs in if memb_is_equal r.memb_id id then rest else r ∷ rest

unfoldable pub insert_all : List ℕ → MembersInfo → MembersInfo
insert_all [] m = m
insert_all (x ∷ xs) m = insert_all xs (insert_member m x).1

abbrev pub drop : ℕ → List ℕ → List ℕ
drop zero xs = xs
drop (suc n) [] = []
drop (suc n) (x ∷ xs) = drop n xs

abbrev pub greater : ℕ → ℕ → ℕ
greater a b = if ltb b a then a else b

-- The local `temp_set`.
abbrev pub no_members : MembersInfo
no_members = record { num_members = 0; num_pending = 0; members = replicate 128 0 }

-- The holes that this daemon has too, and those above the highest number of the others.
unfoldable pub shared_holes : (exist : ℕ → ℕ) (highest : ℕ) → RingInfo → List ℕ
unfolding without holes_in
shared_holes exist highest r =
    without (λ q. not (exist (pack_entry q) == 0)) r.holes
    ++ holes_in exist (highest - r.highest_seq) (suc r.highest_seq)

-- What the members of the ring have told so far, with what this daemon has; `none` is the exit on a
-- daemon that is in the transitional set already.
unfoldable pub merge_ring : RingInfo → Daemon → Option RingInfo
unfolding insert_all shared_holes
merge_ring r d =
    let trans = insert_all (d.my.id ∷ []) (insert_all (take r.num_trans r.procs) no_members) in
    let all =
      insert_all (take d.commit_set.num_members d.commit_set.members)
        (insert_all (drop r.num_trans r.procs) trans) in
    if trans.num_members == suc r.num_trans
    then some (record {
      memb_id = d.membership_id;
      trans_time = pos 0;
      aru = greater r.aru d.aru;
      highest_seq = greater r.highest_seq d.highest_seq;
      holes = shared_holes d.exist d.highest_seq r;
      procs = take all.num_members all.members;
      num_trans = suc r.num_trans;
    })
    else none

-- Entries moved down by one place, over `x`.
abbrev pub move_down : ℕ → ℕ → List ℕ → List ℕ
move_down zero x xs = x ∷ xs
move_down (suc n) x [] = x ∷ []
move_down (suc n) x (y ∷ ys) = y ∷ move_down n y ys

-- The search over `n` members for an id, of `count` entries in use.
pub remove_first : (n count id : ℕ) → List ℕ → List ℕ
remove_first zero count id xs = xs
remove_first (suc n) count id [] = []
remove_first (suc n) count id (x ∷ xs) =
    let rest = remove_first n (count - 1) id xs in
    if x == id then move_down (count - 1) x xs else x ∷ rest

-- A daemon whose ring does not fit takes itself off the members.
unfoldable pub remove_self : ℕ → MembersInfo → MembersInfo
unfolding remove_first
remove_self my m = record m {
  num_members = m.num_members - 1;
  members = remove_first m.num_members (m.num_members + m.num_pending) my m.members;
}

-- The new rings, and the members.
unfoldable pub fill_rings :
    List RingInfo → MembersInfo → Daemon → Option (List RingInfo × MembersInfo)
unfolding own_of other_rings merge_ring own_ring remove_self
fill_rings rings m d =
    let others = other_rings d.membership_id rings in
    elim (own_of d.membership_id rings) [
      | some r ↦ merge_ring r d >>= λ own. some (others ++ (own ∷ []), m)
      | none ↦ some (
          if ltb max_form_reps (suc (length others))
          then (others, remove_self d.my.id m)
          else (others ++ (own_ring d.last_discarded d ∷ []), m))
    ]

-- The token goes on: to the next member, to the next representative, or back as a form2 token. `none` is
-- the exit of `Sort_members`.
unfoldable pub pass_form1 : FormToken → Lists → List RingInfo → Daemon → Option Daemon
unfolding send sort_members
pass_form1 t l rings d =
    let t' = record t {
      proc_id = d.my.id;
      seq = if ltb t.seq (d.highest_seq + 3333) then d.highest_seq + 3333 else t.seq;
      rtr_len = form1_len rings;
      members = l.members;
      middle = gathered l.reps;
      rings = rings;
    } in
    elim (next_hop l.members l.reps) [
      | to_member id ↦ some (twice id t' d)
      | to_rep id ↦ some (twice id t' d)
      | to_none ↦ sort_members d.table l.members >>= λ m. some (
          twice (get_or m.members 0 0)
            (record t' {
              kind = form2_type;
              rtr_len = form2_len rings;
              members = record m { num_pending = m.num_members; num_members = 0 };
              middle = no_id_yet l.reps;
            })
            d)
    ]

-- `Fill_form1` behind the validity checks.
unfoldable pub fill_behind : FormToken → Lists → Daemon → Option Daemon
unfolding add_potential fill_rings pass_form1 enter_form cancel
fill_behind t l d = do
  p ← add_potential d.table d.my.seg_index (active l.reps) (no_reps d.potential_reps)
  let told = record d { potential_reps = p }
  x ← fill_rings t.rings l.members told
  handed ← pass_form1 t (record l { members = x.1 }) x.0 told
  some (
      enter_form
        (cancel shift_to_seg_call (cancel form_or_fail_call (cancel send_join_call handed))))

abbrev pub is_next_rep : Lists → ℕ → Bool
is_next_rep l my = ((next_rep l.reps).proc_id == my) && (l.members.num_pending == 0)

-- `Fill_form1`, on a token with the representatives.
unfoldable pub fill_form1 : FormToken → RepsInfo → Daemon → Option Daemon
unfolding fill_member fill_rep fill_behind
fill_form1 t r d =
    let l : Lists = record { members = t.members; reps = r } in
    let at_member : Option Daemon = elim (fill_member d.my.id l) [
      | none ↦ some d
      | some l' ↦ fill_behind t l' d
    ] in
    elim d.phase [
      | op ↦ at_member
      | represented ↦ at_member
      | gather ↦
          if is_next_rep l d.my.id then (fill_rep l d >>= λ x. fill_behind t x.0 x.1) else some d
      | seg ↦ none
      | form ↦ none
      | evs ↦ none
    ]
