-- ===== src/Groups/State.antt =====
-- daemon/groups.c: the variables of the groups and the messages that daemons exchange about them.
use in5020_distribuerte_syst.Prelude.{ℕ, Bool, List, Option}
use in5020_distribuerte_syst.Conf.{Configuration}
use in5020_distribuerte_syst.Prot.Store.{MembershipId}
use in5020_distribuerte_syst.Groups.{Name, Group, GroupId, DaemonMembers, Notice, Phase}

-- What a groups message tells of a group.
pub record GroupInfo : Type 0 where
  pub name : Name
  pub grp_id : GroupId
  pub changed : Bool
  pub daemons : List DaemonMembers

-- A buffer of `Groups_bufs`: `memb_id`, the synced set where the flag says that it is the first, and
-- the groups, with the bytes that they take.
pub record GroupsBuf : Type 0 where
  pub memb_id : MembershipId
  pub synced : Option (List ℕ)
  pub groups : List GroupInfo
  pub bytes : ℕ

-- A groups message: the buffer, and from its header the sender, the size of the synced set, and
-- whether it is AGREED.
pub record GroupsMess : Type 0 where
  pub buf : GroupsBuf
  pub sender : Name
  pub synced_size : ℕ
  pub agreed : Bool

-- `groups_message_link`, with its messages from the newest on.
pub record Link : Type 0 where
  pub rep_proc_id : ℕ
  pub complete : Bool
  pub messages : List GroupsMess

-- The variables of groups.c, with what it tells the local members and what it sends. `synced` is
-- `MySyncedSet`, `own_complete` is `Gathered.complete`, `gathered` the list from `Gathered.next` on,
-- `sent` what is handed to Prot_new_message.
pub record State : Type 0 where
  pub phase : Phase
  pub groups : List Group
  pub num_groups : ℕ
  pub trans_memb : Configuration
  pub trans_memb_id : MembershipId
  pub reg_memb : Configuration
  pub reg_memb_id : MembershipId
  pub synced : List ℕ
  pub own_complete : Bool
  pub gathered : List Link
  pub num_mess_gathered : ℕ
  pub num_daemons_gathered : ℕ
  pub normal_down_queue : Bool
  pub session_threshold : ℕ
  pub groups_bufs : List GroupsBuf
  pub bufs_fresh : Bool
  pub sent : List GroupsMess
  pub told : List (ℕ × Notice)
