-- ===== src/Memb/Loss.antt =====
-- daemon/membership.c: `Memb_token_loss` and `Backoff_membership`.
pub mod Backoff
use in5020_distribuerte_syst.Prelude.{
  ℕ, zero, suc, ◌+◌, ◌-◌, ◌%◌, Bool, true, false, ◌==◌, if◌then◌else◌, List, [], ◌∷◌, Option, none,
  some, set, ◌>>=◌, map, take, get_elem?,
}
use in5020_distribuerte_syst.Conf.{
  Proc, Segment, Configuration, append_id_to_seg, first_id, procs_at, seg_leader, num_segments,
}
use in5020_distribuerte_syst.Prot.Store.{pack_entry, put}
use in5020_distribuerte_syst.Memb.Members.{MembersInfo}
use in5020_distribuerte_syst.Memb.Reps.{RepInfo, RepsInfo, active, potential_rep, insert_rep}
use in5020_distribuerte_syst.Memb.State.{
  Daemon, Phase, op, seg, represented, gather, form, evs, start, cancel, token_loss_call,
  send_join_call, form_or_fail_call, token_hurry_call, lookup_call,
}
use in5020_distribuerte_syst.Memb.Shift.{shift_to_seg, only_member}

-- The first loop of `Backoff_membership`, from index `i` on with `n` rounds.
pub clear_dummies : ℕ → ℕ → (ℕ → ℕ) → ℕ → ℕ
clear_dummies zero i exist = exist
clear_dummies (suc n) i exist =
    clear_dummies n (suc i)
      (if exist (pack_entry i) == 3 then put exist (pack_entry i) 0 else exist)

-- The second loop. It tests the entry `e` that the first loop left, in every round.
pub count_from : ℕ → ℕ → (ℕ → ℕ) → ℕ → ℕ
count_from zero e exist my_aru = my_aru
count_from (suc n) e exist my_aru =
    let rest = count_from n e exist (suc my_aru) in if exist e == 0 then my_aru else rest

unfoldable pub backoff_membership : Daemon → Daemon
unfolding clear_dummies count_from
backoff_membership d =
    let rounds = d.highest_seq - d.last_discarded in
    let cleared = clear_dummies rounds (suc d.last_discarded) d.exist in
    record d {
      store = record d.store {
        exist = cleared;
        aru = d.last_discarded;
        my_aru = count_from rounds (pack_entry d.highest_seq) cleared d.last_discarded;
      };
    }

abbrev pub insert_quietly : List Proc → RepsInfo → RepInfo → Option RepsInfo
insert_quietly table r rep = elim (insert_rep table r rep) [ none ↦ none | some (b, r') ↦ some r' ]

-- The first process of the segment in the membership, or else in the configuration.
abbrev pub candidate : Daemon → Configuration → ℕ → Option ℕ
candidate d memb i = elim (first_id (procs_at memb.segments i)) [
  | some id ↦ some id
  | none ↦ seg_leader d.cn i
]

-- The loop over the segments from `i` on, which adds a representative of type `kind` for each
-- segment but the daemon's own.
pub add_segments : Daemon → Configuration → ℕ → ℕ → ℕ → RepsInfo → Option RepsInfo
add_segments d memb kind zero i r = some r
add_segments d memb kind (suc n) i r =
    let skipped = add_segments d memb kind n (suc i) r in
    let added = do
      id ← candidate d memb i
      r' ← insert_quietly d.table r (record { proc_id = id; kind = kind; seg_index = i })
      add_segments d memb kind n (suc i) r'
    in if i == d.my.seg_index then skipped else added

abbrev pub tail_of : List RepInfo → List RepInfo
tail_of [] = []
tail_of (x ∷ xs) = xs

-- The loop over the gathered representatives behind the first.
abbrev pub add_reps : List Proc → List RepInfo → RepsInfo → Option RepsInfo
add_reps table [] r = some r
add_reps table (x ∷ xs) r = do r' ← insert_quietly table r x; add_reps table xs r'

-- What is left in `temp_rep.type` behind that loop.
abbrev pub last_kind : ℕ → List RepInfo → ℕ
last_kind k [] = k
last_kind k (x ∷ xs) = last_kind x.kind xs

abbrev pub no_reps : RepsInfo → RepsInfo
no_reps r = record r { num_reps = 0 }

-- The `switch` of `Memb_token_loss`; `none` is an exit.
unfoldable pub update_potential : Daemon → Option Daemon
unfolding backoff_membership add_segments
update_potential d = elim d.phase [
  | op ↦ do
    let lone = record d { commit_set = only_member d.my.id d.commit_set }
    r ← add_segments d d.membership potential_rep (num_segments d.cn) 0 (no_reps d.potential_reps)
    some (record lone { potential_reps = r })
  | seg ↦ none
  | represented ↦ none
  | gather ↦ if d.token_alive then lost_ring else none
  | form ↦ some d
  | evs ↦ do
    let back = backoff_membership d
    r ←
        add_segments d d.future_membership potential_rep (num_segments d.cn) 0
          (no_reps d.potential_reps)
    some (record back { potential_reps = r })
]
  where
    gathered : List RepInfo
    gathered = tail_of (active d.f_reps)

    lost_ring : Option Daemon
    lost_ring = do
      let lone = record d { commit_set = only_member d.my.id d.commit_set }
      r ← add_reps d.table gathered (no_reps d.potential_reps)
      r' ← add_segments d d.membership (last_kind potential_rep gathered) (num_segments d.cn) 0 r
      some (record lone { potential_reps = r' })

abbrev no_procs : Segment → Segment
no_procs s = record s { procs = [] }

-- `Membership` with no process, and then with the daemon alone.
abbrev pub emptied : Configuration → Configuration
emptied c = record c { segments = map no_procs c.segments }

abbrev pub put_seg : List Segment → ℕ → Option Segment → List Segment
put_seg ss i none = ss
put_seg ss i (some s) = set ss i s

abbrev pub append_at : List Proc → Configuration → ℕ → ℕ → Configuration
append_at table c i id = record c {
  segments =
      put_seg c.segments i
        (elim (get_elem? c.segments i) [ none ↦ none | some s ↦ append_id_to_seg table s id ]);
}

unfoldable pub drop_ring : Daemon → Daemon
unfolding shift_to_seg cancel
drop_ring d =
    let shifted = record (shift_to_seg d) { token_alive = false } in
    let quiet = cancel lookup_call (
      cancel token_hurry_call
        (cancel form_or_fail_call (cancel send_join_call (cancel token_loss_call shifted)))) in
    record quiet {
      store = record d.store { last_token = record d.last_token { kind = 0; seq = 0; aru = 0 } };
      membership = append_at d.table (emptied d.membership) d.my.seg_index d.my.id;
    }

-- `Memb_token_loss`.
unfoldable pub token_loss : Daemon → Option Daemon
unfolding update_potential drop_ring
token_loss d = do d' ← update_potential d; some (drop_ring d')
