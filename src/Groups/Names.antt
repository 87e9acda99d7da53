-- ===== src/Groups/Names.antt =====
-- daemon/groups.c and daemon/configuration.c: the names in a private group, and the process of a name.
pub mod Private
use in5020_distribuerte_syst.Prelude.{
  ℕ, suc, ◌-◌, Bool, true, false, not, ◌==◌, ltb, leb, ◌&&◌, ◌||◌, if◌then◌else◌, List, [], ◌∷◌,
  ◌++◌, Option, none, some, ◌>>=◌, length,
}
use in5020_distribuerte_syst.Conf.{Proc, Configuration, id_in_conf}
use in5020_distribuerte_syst.Prot.Store.{MembershipId}
use in5020_distribuerte_syst.Groups.{
  Name, Group, GroupId, DaemonMembers, Env, Notice, Cause, Phase, gop, gtrans, ggather, ggt,
  by_join, by_leave, by_disconnect, name_dec, unknown_memb_id, is_partitioned_daemon, get_group,
  get_daemon, get_member, write_daemon, write_group, remove_daemon, remove_mailbox,
}
use in5020_distribuerte_syst.Groups.Notices.{
  send_lightweight_memb, send_self_leave, send_trans_memb, send_heavyweight_join,
  send_heavyweight_memb,
}

abbrev pub is_hash : ℕ → Bool
is_hash c = c == 35

-- At most '#', also a negative `char`, or above '~'.
abbrev pub is_illegal_char : ℕ → Bool
is_illegal_char c = leb c 35 || ltb 126 c

abbrev pub is_legal : Name → Bool
is_legal [] = true
is_legal (c ∷ cs) = not (is_illegal_char c) && is_legal cs

abbrev pub push_front : ℕ → Option (Name × Name) → Option (Name × Name)
push_front c none = none
push_front c (some (u, v)) = some (c ∷ u, v)

-- `strchr` for '#': what stands before it, and behind it.
abbrev pub split_at_hash : Name → Option (Name × Name)
split_at_hash [] = none
split_at_hash (c ∷ cs) =
    let rest = split_at_hash cs in if is_hash c then some ([], cs) else push_front c rest

abbrev pub is_bad_length : Name → Name → Bool
is_bad_length u v = ltb 10 (length u) || ltb (length u) 1 || leb 20 (length v) || ltb (length v) 1

-- With the two sides of the '#' behind the first character.
abbrev pub check_names : ℕ → Option (Name × Name) → Option (Name × Name)
check_names c none = none
check_names c (some (u, v)) =
    if not (is_hash c) || is_bad_length u v
    then none
    else if is_legal u && is_legal v
    then some (u, v)
    else none

-- `G_private_to_names`; `none` is ILLEGAL_GROUP.
unfoldable pub private_to_names : Name → Option (Name × Name)
private_to_names [] = none
private_to_names (c ∷ cs) = check_names c (split_at_hash cs)

-- The handlers do not look at the result: the names stay unset where it is ILLEGAL_GROUP.
abbrev pub names_of : Env → Name → Name × Name
names_of e name = elim (private_to_names name) [ none ↦ e.unset | some r ↦ r ]

-- `Conf_proc_by_name`.
abbrev pub proc_by_name : List Proc → Name → Option Proc
proc_by_name [] name = none
proc_by_name (p ∷ ps) name = elim (name_dec p.name name) [
  | yes _ ↦ some p
  | no _ ↦ proc_by_name ps name
]
