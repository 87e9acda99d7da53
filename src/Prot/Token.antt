-- ===== src/Prot/Token.antt =====
-- daemon/protocol.c and daemon/net_types.h: the fields of a token's type, the retransmissions that a
-- token asks for, and the computation of its aru. `none` is an exit.
pub mod Bits
pub mod Aru
pub mod Requests
use in5020_distribuerte_syst.Prelude.{
  ℕ, zero, suc, ◌+◌, ◌-◌, ◌*◌, ◌/◌, ◌%◌, Bool, true, false, not, ◌&&◌, ◌||◌, ◌==◌, ltb, leb,
  if◌then◌else◌, List, [], ◌∷◌, ◌++◌, length, Option, none, some, ℤ, pos, negsuc, ◌>>=◌,
}
use in5020_distribuerte_syst.Prot.Store.{
  Store, Header, TokenHeader, RingRtr, MembershipId, Net, Wire, ucast, scast, pack_entry,
}
use in5020_distribuerte_syst.Prot.Net.{flush_bcast, queue_bcast}
use in5020_distribuerte_syst.Prot.Send.{bit}

-- ARQ_TYPE is the 4 bits from 16, RETRANS_TYPE those from 20.
unfoldable pub get_arq : ℕ → ℕ
get_arq kind = kind / 65536 % 16

unfoldable pub set_arq : ℕ → ℕ → ℕ
set_arq kind val = kind - kind / 65536 % 16 * 65536 + val % 16 * 65536

unfoldable pub get_retrans : ℕ → ℕ
get_retrans kind = kind / 1048576 % 16

unfoldable pub set_retrans : ℕ → ℕ → ℕ
set_retrans kind val = kind - kind / 1048576 % 16 * 1048576 + val % 16 * 1048576

-- `Memb_is_equal`.
abbrev pub is_minus : ℤ → ℤ → Bool
is_minus (pos a) (pos b) = a == b
is_minus (pos a) (negsuc b) = false
is_minus (negsuc a) (pos b) = false
is_minus (negsuc a) (negsuc b) = a == b

abbrev pub memb_is_equal : MembershipId → MembershipId → Bool
memb_is_equal a b = (a.proc_id == b.proc_id) && is_minus a.time b.time

-- A packet handed to `DL_send`: whether the result is above 0.
abbrev pub hand_over : Wire → Net → Bool × Net
hand_over w n =
    (n.accepts n.flushes, record n { flushes = suc n.flushes; wire = n.wire ++ (w ∷ []) })

-- To whom a packet goes again: to one process, if Net_ucast finds it, to a segment, or to all.
unfoldable pub resend : RingRtr → Header → ℕ → Net → Bool × Net
resend r h body n = elim r.proc_id [
  | some id ↦ if n.knows id then hand_over (ucast id h body) n else (false, n)
  | none ↦ elim r.seg_index [ some i ↦ hand_over (scast i h body) n | none ↦ queue_bcast h body n ]
]

-- What `Answer_retrans` gathers: the number sent, the addressee of the own requests, and the network.
pub record Answers : Type 0 where
  pub num_retrans : ℕ
  pub proc_id : Option ℕ
  pub seg_index : Option ℕ
  pub net : Net

abbrev pub is_own_seg : Option ℕ → ℕ → Bool
is_own_seg none i = false
is_own_seg (some j) i = j == i

-- The loop over the requests of one ring. A request below `Aru` ends the program.
pub answer_seqs : Store → (my_seg : ℕ) → RingRtr → List ℕ → Answers → Option Answers
answer_seqs s my_seg r [] a = some a
answer_seqs s my_seg r (q ∷ qs) a =
    let (sent, n) = resend r (s.head (pack_entry q)) (s.body (pack_entry q)) a.net in
    if ltb q s.aru
    then none
    else if not (s.exist (pack_entry q) == 0)
    then answer_seqs s my_seg r qs (record a { num_retrans = a.num_retrans + bit sent; net = n })
    else answer_seqs s my_seg r qs (record a {
      proc_id = none;
      seg_index = if is_own_seg r.seg_index my_seg then a.seg_index else none;
    })

-- The loop over the parts of the token. The requests of other rings stay on it.
pub answer_rings :
    Store → MembershipId → (my_seg : ℕ) → List RingRtr → Answers → Option (List RingRtr × Answers)
unfolding answer_seqs
answer_rings s memb_id my_seg [] a = some ([], a)
answer_rings s memb_id my_seg (r ∷ rs) a =
    if memb_is_equal r.memb_id memb_id
    then (answer_seqs s my_seg r r.seqs a >>= λ a'. answer_rings s memb_id my_seg rs a')
    else answer_rings s memb_id my_seg rs a >>= λ x. some (r ∷ x.0, x.1)

-- `Answer_retrans`.
unfoldable pub answer_retrans :
    Store → MembershipId → (my_id my_seg : ℕ) → List RingRtr → Option (List RingRtr × Answers)
unfolding answer_rings
answer_retrans s memb_id my_id my_seg rs =
    answer_rings s memb_id my_seg rs
      (record { num_retrans = 0; proc_id = some my_id; seg_index = some my_seg; net = s.net })
    >>= λ x.
        let (sent, n) = flush_bcast x.1.net in
        some (x.0, record x.1 { num_retrans = x.1.num_retrans + bit sent; net = n })

-- The bytes of the requests on a token, and of its body.
unfoldable pub rtr_bytes : List RingRtr → ℕ
rtr_bytes [] = 0
rtr_bytes (r ∷ rs) = 16 + length r.seqs * 4 + rtr_bytes rs

abbrev pub token_body_size : ℕ
token_body_size = 1440

-- The packets that are missing, from `i` on.
pub missing_from : ℕ → ℕ → (ℕ → ℕ) → List ℕ
missing_from zero i exist = []
missing_from (suc n) i exist =
    let rest = missing_from n (suc i) exist in if exist (pack_entry i) == 0 then i ∷ rest else rest

abbrev pub at_most_ℕ : ℕ → ℕ → ℕ
at_most_ℕ a b = if ltb a b then a else b

-- `retrans_allowed`, on a machine with a `size_t` of 64 bits and an `int` of 32: the difference wraps,
-- and what comes out negative as an `int` is 0 here, which the tests for more than 1 and more than 0
-- treat alike.
unfoldable pub retrans_allowed : ℕ → ℕ
retrans_allowed new_ptr =
    let quarter =
      (token_body_size + 18446744073709551616 - new_ptr - 16) % 18446744073709551616 / 4 in
    if ltb (quarter % 4294967296) 2147483648 then quarter % 4294967296 else 0

-- The requests of the daemon behind those of the other rings, as many as fit the token.
unfoldable pub my_requests : Store → MembershipId → List RingRtr → Answers → List RingRtr
unfolding missing_from rtr_bytes
my_requests s memb_id kept a =
    let allowed = retrans_allowed (rtr_bytes kept) in
    if ltb s.my_aru s.highest_seq && ltb 1 allowed
    then kept
      ++ (record {
        memb_id = memb_id;
        proc_id = a.proc_id;
        seg_index = a.seg_index;
        seqs = missing_from (at_most_ℕ allowed (s.highest_seq - s.my_aru)) (suc s.my_aru) s.exist;
      }
          ∷ [])
    else kept

abbrev pub is_number : ℤ → ℕ → Bool
is_number (pos m) n = m == n
is_number (negsuc m) n = false

-- "Calculating Token->aru and Set_aru": the aru, its process, and `Set_aru`.
unfoldable pub next_aru : TokenHeader → (my_id my_aru highest_seq : ℕ) → ℤ → ℕ × ℕ × ℤ
next_aru t my_id my_aru highest_seq set_aru =
    if is_number set_aru t.aru || ((t.aru_last_id == my_id) || (t.aru == t.seq))
    then (my_aru, my_id, if ltb my_aru highest_seq then pos my_aru else negsuc 0)
    else if ltb my_aru t.aru
    then (my_aru, my_id, pos my_aru)
    else (t.aru, t.aru_last_id, negsuc 0)
