-- ===== src/Groups/Notices.antt =====
-- daemon/groups.c: what the local members of a group are told. A buffer is the notice that is read
-- from it, a write to a session a pair of its mailbox and the notice.
pub mod Listed
pub mod Sets
use in5020_distribuerte_syst.Prelude.{
  ℕ, ◌+◌, ◌-◌, ◌*◌, Bool, true, false, not, ◌==◌, ◌&&◌, ◌||◌, if◌then◌else◌, List, [], ◌∷◌, ◌++◌,
  Option, none, some, length, ◌>>=◌, is_none, gather,
}
use in5020_distribuerte_syst.Prot.Store.{MembershipId}
use in5020_distribuerte_syst.Prot.Token.{memb_is_equal}
use in5020_distribuerte_syst.Groups.{
  Name, Group, DaemonMembers, Env, Notice, Cause, name_dec, unknown_memb_id, is_unknown_memb_id,
  membership, transition, self_leave, by_network,
}

-- The members in the order of the daemons, as G_build_memb_buf copies them.
abbrev pub all_members : List DaemonMembers → List Name
all_members = gather (λ d. d.members)

-- The loop over `grp->mboxes`.
abbrev pub tell : Env → Notice → List ℕ → List (ℕ × Notice)
tell e n [] = []
tell e n (m ∷ ms) = let rest = tell e n ms in if e.is_memb m then (m, n) ∷ rest else rest

-- `G_send_lightweight_memb`, with `G_build_memb_buf`.
unfoldable pub send_lightweight_memb : Env → Group → Cause → Name → List (ℕ × Notice)
send_lightweight_memb e g caused name =
    tell e
      (membership caused g.name g.grp_id g.num_members (all_members g.daemons) 0 ((name ∷ []) ∷ []))
      g.mboxes

unfoldable pub send_self_leave : Env → Group → ℕ → List (ℕ × Notice)
send_self_leave e g mbox = tell e (self_leave g.name) (mbox ∷ [])

-- `G_send_trans_memb`, with `G_build_trans_mess`.
unfoldable pub send_trans_memb : Env → Group → List (ℕ × Notice)
send_trans_memb e g = tell e (transition g.name g.grp_id) g.mboxes

-- The variables of the loop of `G_build_memb_vs_buf`; the last set is the current one.
pub record VsSets : Type 0 where
  pub memb_id : MembershipId
  pub sets : List (List Name)
  pub offset : ℕ
  pub found_joiner : Bool

-- A set takes its size, of 4 bytes, and 32 bytes a name.
abbrev pub vs_bytes : List (List Name) → ℕ
vs_bytes [] = 0
vs_bytes (s ∷ ss) = 4 + 32 * length s + vs_bytes ss

-- Where the last set starts.
abbrev pub last_offset : List (List Name) → ℕ
last_offset [] = 0
last_offset (s ∷ []) = 0
last_offset (s ∷ t ∷ ss) = 4 + 32 * length s + last_offset (t ∷ ss)

abbrev pub extend_last : List (List Name) → List Name → List (List Name)
extend_last [] ns = []
extend_last (s ∷ []) ns = (s ++ ns) ∷ []
extend_last (s ∷ t ∷ ss) ns = s ∷ extend_last (t ∷ ss) ns

-- The loop over the members of a daemon, which leaves out the joiner once: what it copies, and
-- whether the joiner is found.
unfoldable pub list_members : Option Name → Bool → List Name → List Name × Bool
list_members joiner found [] = ([], found)
list_members none found (n ∷ ns) = let r = list_members none found ns in (n ∷ r.0, r.1)
list_members (some j) found (n ∷ ns) =
    let rest = list_members (some j) found ns in
    let skip = list_members (some j) true ns in
    if found
    then (n ∷ rest.0, rest.1)
    else elim (name_dec j n) [ yes _ ↦ skip | no _ ↦ (n ∷ rest.0, rest.1) ]

-- A round of the loop over the daemons; `none` is the exit on a set found twice.
unfoldable pub vs_daemon : Env → Option Name → DaemonMembers → VsSets → Option VsSets
vs_daemon e joiner d v =
    let needed = is_unknown_memb_id v.memb_id || not (memb_is_equal v.memb_id d.memb_id) in
    let sets = if needed then v.sets ++ [] ∷ [] else v.sets in
    let listed = list_members joiner v.found_joiner d.members in
    let v' : VsSets = record {
      memb_id = if needed then d.memb_id else v.memb_id;
      sets = extend_last sets listed.0;
      offset = v.offset;
      found_joiner = listed.1;
    } in
    if d.proc_id == e.my.id
    then (if v.offset == 0 then some (record v' { offset = last_offset sets }) else none)
    else some v'

unfoldable pub vs_daemons : Env → Option Name → List DaemonMembers → VsSets → Option VsSets
vs_daemons e joiner [] v = some v
vs_daemons e joiner (d ∷ ds) v = vs_daemon e joiner d v >>= vs_daemons e joiner ds

-- The joiner in a set of its own; `none` is the exit on a joiner that was not found.
abbrev pub add_joiner : Option Name → VsSets → Option VsSets
add_joiner none v = some v
add_joiner (some j) v =
    if v.found_joiner then some (record v { sets = v.sets ++ (j ∷ []) ∷ [] }) else none

-- `G_build_memb_vs_buf`: the sets, and the offset of the local one.
unfoldable pub build_memb_vs_buf : Env → Group → Option Name → Option VsSets
build_memb_vs_buf e g joiner = e.vs_order g.daemons >>= λ ds.
    vs_daemons e joiner ds
      (record { memb_id = unknown_memb_id; sets = []; offset = 0; found_joiner = false })
    >>= add_joiner joiner

abbrev pub heavyweight : Group → VsSets → ℕ → Notice
heavyweight g v offset =
    membership by_network g.name g.grp_id g.num_members (all_members g.daemons) offset v.sets

-- The mailboxes that the loop of `G_send_heavyweight_join` does not skip.
abbrev pub others_than : Option ℕ → List ℕ → List ℕ
others_than none ms = ms
others_than (some b) [] = []
others_than (some b) (m ∷ ms) =
    let rest = others_than (some b) ms in if b == m then rest else m ∷ rest

-- What `data_len` is: the group id, two numbers and the sets.
abbrev pub data_len : VsSets → ℕ
data_len v = 12 + 8 + vs_bytes v.sets

-- The new member is told last, with the offset of the last set.
abbrev pub tell_joiner : Env → Group → VsSets → Option ℕ → List (ℕ × Notice)
tell_joiner e g v none = []
tell_joiner e g v (some b) =
    tell e (heavyweight g v (data_len v - (4 + 32) - (12 + 2 * 4))) (b ∷ [])

-- `G_send_heavyweight_join`, and with `none`, `none` `G_send_heavyweight_memb`; a mailbox `none` is
-- -1.
unfoldable pub send_heavyweight_join :
    Env → Group → Option Name → Option ℕ → Option (List (ℕ × Notice))
send_heavyweight_join e g joiner new_mbox = build_memb_vs_buf e g joiner >>= λ v. some (
    tell e (heavyweight g v v.offset)
      (if is_none joiner then g.mboxes else others_than new_mbox g.mboxes)
    ++ tell_joiner e g v new_mbox)

unfoldable pub send_heavyweight_memb : Env → Group → Option (List (ℕ × Notice))
unfolding send_heavyweight_join
send_heavyweight_memb e g = send_heavyweight_join e g none none
