-- ===== src/Memb/Rings.antt =====
-- daemon/membership.c: the token by which a membership is formed, with a `ring_info` for each ring
-- whose members it reaches. An array of numbers with its count is the list of the entries in use.
use in5020_distribuerte_syst.Prelude.{ℕ, ◌+◌, ◌*◌, List, [], ◌∷◌, length, ℤ}
use in5020_distribuerte_syst.Prot.Store.{MembershipId}
use in5020_distribuerte_syst.Memb.Members.{MembersInfo}
use in5020_distribuerte_syst.Memb.Reps.{RepsInfo}

-- `ring_info` with the numbers behind it: `num_holes` holes, and `num_commit` processes of which the
-- first `num_trans` are in the transitional set.
pub record RingInfo : Type 0 where
  pub memb_id : MembershipId
  pub trans_time : ℤ
  pub aru : ℕ
  pub highest_seq : ℕ
  pub holes : List ℕ
  pub procs : List ℕ
  pub num_trans : ℕ

-- What stands behind the members: the representatives on a form1 token, and an id on a form2 token. A
-- form2 token starts with the first bytes of the representatives, and no id yet.
pub data Middle : Type 0 where
  gathered : RepsInfo → Middle
  no_id_yet : RepsInfo → Middle
  numbered : MembershipId → Middle

pub record FormToken : Type 0 where
  pub kind : ℕ
  pub seq : ℕ
  pub proc_id : ℕ
  pub aru_last_id : ℕ
  pub rtr_len : ℕ
  pub members : MembersInfo
  pub middle : Middle
  pub rings : List RingInfo

abbrev pub form1_type : ℕ
form1_type = 0x1000

abbrev pub form2_type : ℕ
form2_type = 0x2000

abbrev pub max_form_reps : ℕ
max_form_reps = 20

-- The sizes of `members_info`, of `reps_info` and of `membership_id`.
abbrev pub members_size : ℕ
members_size = 516

abbrev pub reps_size : ℕ
reps_size = 204

abbrev pub id_size : ℕ
id_size = 8

-- The bytes of the rings, as `num_bytes` counts them: the number of rings, and each `ring_info` with its
-- holes and its processes.
abbrev pub ring_bytes : List RingInfo → ℕ
ring_bytes [] = 4
ring_bytes (r ∷ rs) = 28 + (length r.holes + length r.procs) * 4 + ring_bytes rs
