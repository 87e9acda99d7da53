-- ===== src/Events/Descriptors.antt =====
-- daemon/events.c, `Fd_queue`, `Fd_mask` and `Active_priority` with the operations on them: E_init,
-- E_attach_fd, E_detach_fd, E_deactivate_fd, E_activate_fd, E_set_active_threshold, E_num_active.
-- The part of `events` in use is a list, an `fd_set` a function; handlers and data are numbers. A
-- descriptor that is searched for is no negative number. An access outside an array is `none`.
pub mod Attach
pub mod Counts
pub mod Masks
use in5020_distribuerte_syst.Prelude.{
  ℕ, zero, suc, ◌+◌, ◌-◌, ◌<◌, ◌≤◌, ◌≡◌, refl, sym, ap, ◌∙◌, subst, ◌≢◌, ◌⊎◌, inl, inr, Bool, true,
  false, not, ◌&&◌, ◌||◌, Option, none, some, List, [], ◌∷◌, ◌++◌, arith, ltb, leb, ◌==◌,
  if◌then◌else◌, ◌>>=◌, is_none, length, get_elem?, set, replicate, ℤ, pos, negsuc, Bool-cases,
  Option-cases,
}

pub record FdEvent : Type 0 where
  pub fd : ℕ
  pub fd_type : ℕ
  pub func : ℕ
  pub code : ℕ
  pub arg : ℕ
  pub active : Bool

pub record FdQueue : Type 0 where
  pub num_active_fds : ℕ
  pub events : List FdEvent

abbrev pub Masks : Type 0
Masks = ℕ → ℕ → Bool

pub record Descriptors : Type 0 where
  pub fd_queue : List FdQueue
  pub fd_mask : Masks
  pub active_priority : ℕ

abbrev pub num_priority : ℕ
num_priority = 3

abbrev pub num_fdtypes : ℕ
num_fdtypes = 3

abbrev pub max_fd_events : ℕ
max_fd_events = 2000

-- FD_SET and FD_CLR on `Fd_mask[fd_type]`.
abbrev pub write_mask : Bool → ℕ → ℕ → Masks → Option Masks
write_mask b fd t m =
    if ltb t num_fdtypes
    then some (λ t' fd'. if (t' == t) && (fd' == fd) then b else m t' fd')
    else none

abbrev pub matches : ℕ → ℕ → FdEvent → Bool
matches fd t e = (e.fd == fd) && (e.fd_type == t)

abbrev pub init : Descriptors
init = record {
  fd_queue = replicate num_priority (record { num_active_fds = 0; events = [] });
  fd_mask = λ t fd. false;
  active_priority = 0;
}

-- The search for the first event of a descriptor, which is changed; whether it was active.
pub change_first : (FdEvent → FdEvent) → ℕ → ℕ → List FdEvent → Option (Bool × List FdEvent)
change_first f fd t [] = none
change_first f fd t (e ∷ r) =
    let rest = change_first f fd t r in
    if matches fd t e then some (e.active, f e ∷ r) else rest >>= λ x. some (x.0, e ∷ x.1)

-- `x` before the rest of a list, but behind its last event, which is brought to the front.
abbrev pub behind_last : FdEvent → List FdEvent → List FdEvent
behind_last x [] = x ∷ []
behind_last x (z ∷ r) = z ∷ x ∷ r

-- `events[j] = events[num_fds]` after `num_fds--`, from the place `j` on: the events behind it,
-- the last one first.
pub fill_gap : List FdEvent → List FdEvent
fill_gap [] = []
fill_gap (x ∷ []) = x ∷ []
fill_gap (x ∷ y ∷ r) = behind_last x (fill_gap (y ∷ r))

pub take_out : ℕ → ℕ → List FdEvent → Option (Bool × List FdEvent)
unfolding fill_gap
take_out fd t [] = none
take_out fd t (e ∷ r) =
    let rest = take_out fd t r in
    if matches fd t e then some (e.active, fill_gap r) else rest >>= λ x. some (x.0, e ∷ x.1)

abbrev pub set_active : Bool → FdEvent → FdEvent
set_active b e = record e { active = b }

-- The rest of the queue with the flag of the event that was found, which is active no more. Where
-- the flag is true the count is at least 1, since it is right.
abbrev pub discount_in : FdQueue → Bool × List FdEvent → FdQueue
discount_in q x = record {
  num_active_fds = if x.0 then q.num_active_fds - 1 else q.num_active_fds;
  events = x.1;
}

-- The bodies of the loops over the priorities: a queue in which the event was found.
abbrev pub detach_in : ℕ → ℕ → FdQueue → Option FdQueue
detach_in fd t q = take_out fd t q.events >>= λ x. some (discount_in q x)

abbrev pub deactivate_in : ℕ → ℕ → FdQueue → Option FdQueue
deactivate_in fd t q = change_first (set_active false) fd t q.events >>= λ x. some (discount_in q x)

abbrev pub count_in : FdQueue → Bool × List FdEvent → FdQueue
count_in q x = record {
  num_active_fds = if x.0 then q.num_active_fds else suc q.num_active_fds;
  events = x.1;
}

abbrev pub activate_in : ℕ → ℕ → FdQueue → Option FdQueue
activate_in fd t q = change_first (set_active true) fd t q.events >>= λ x. some (count_in q x)

-- The queue at the place `i` is written back where the event was found in it.
abbrev pub again : ℕ → Option FdQueue → Bool × List FdQueue × Masks → Bool × List FdQueue × Masks
again i none x = x
again i (some q') (found, qs, m) = (true, set qs i q', m)

-- The loop over the priorities from `i` on, `n` of them, with what it does to the mask where it finds
-- the event.
module _ (step : FdQueue → Option FdQueue) (hit : ℕ → Masks → Option Masks) where
  pub each : ℕ → ℕ → Bool × List FdQueue × Masks → Option (Bool × List FdQueue × Masks)
  each zero i x = some x
  each (suc n) i x = get_elem? x.1 i >>= λ q.
      (if is_none (step q) then some x.2 else hit i x.2) >>= λ m'.
      each n (suc i) (again i (step q) (x.0, x.1, m'))

  pub for_each : ℤ → Descriptors → Option (ℤ × Descriptors)
  unfolding each
  for_each (negsuc n) s = some (negsuc 0, s)
  for_each (pos t) s =
      if ltb num_fdtypes t
      then some (negsuc 0, s)
      else each num_priority 0 (false, s.fd_queue, s.fd_mask) >>= λ x.
          some (if x.0 then pos 0 else negsuc 0, record s { fd_queue = x.1; fd_mask = x.2 })

unfoldable pub detach_fd : ℕ → ℤ → Descriptors → Option (ℤ × Descriptors)
unfolding for_each take_out
detach_fd fd (negsuc n) s = some (negsuc 0, s)
detach_fd fd (pos t) s = for_each (detach_in fd t) (λ i. write_mask false fd t) (pos t) s

unfoldable pub deactivate_fd : ℕ → ℤ → Descriptors → Option (ℤ × Descriptors)
unfolding for_each change_first
deactivate_fd fd (negsuc n) s = some (negsuc 0, s)
deactivate_fd fd (pos t) s = for_each (deactivate_in fd t) (λ i. write_mask false fd t) (pos t) s

unfoldable pub activate_fd : ℕ → ℤ → Descriptors → Option (ℤ × Descriptors)
unfolding for_each change_first
activate_fd fd (negsuc n) s = some (negsuc 0, s)
activate_fd fd (pos t) s =
    for_each (activate_in fd t)
      (λ i m. if leb s.active_priority i then write_mask true fd t m else some m) (pos t) s

-- An argument that passes the test `x < 0 || x > bound` is none.
abbrev pub checked : ℕ → ℤ → Option ℕ
checked bound (negsuc n) = none
checked bound (pos n) = if ltb bound n then none else some n

abbrev pub with_queue : Descriptors → ℕ → FdQueue → Masks → Descriptors
with_queue s p q m = record s { fd_queue = set s.fd_queue p q; fd_mask = m }

-- `E_attach_fd` where the search has found the event, or not.
abbrev pub attached :
    FdEvent → ℕ → Descriptors → FdQueue → Option (Bool × List FdEvent) → Option (ℤ × Descriptors)
attached e p s q (some x) = some (pos 1, with_queue s p (count_in q x) s.fd_mask)
attached e p s q none =
    if length q.events == max_fd_events
    then some (negsuc 0, s)
    else (if leb s.active_priority p
        then write_mask true e.fd e.fd_type s.fd_mask
        else some s.fd_mask)
      >>= λ m. some (
        pos 0,
        with_queue s p
            (record { num_active_fds = suc q.num_active_fds; events = q.events ++ (e ∷ []) }) m,
      )

abbrev pub install : FdEvent → FdEvent → FdEvent
install e old = record e { fd = old.fd; fd_type = old.fd_type }

abbrev pub attach_in : FdEvent → ℕ → Descriptors → Option (ℤ × Descriptors)
attach_in e p s = get_elem? s.fd_queue p >>= λ q.
    attached e p s q (change_first (install e) e.fd e.fd_type q.events)

-- `E_attach_fd` with the priority, the type and the descriptor after their tests.
pub attach_checked :
    (func code arg : ℕ) → Option ℕ → Option ℕ → Option ℕ → Descriptors → Option (ℤ × Descriptors)
unfolding change_first
attach_checked func code arg none t fd s = some (negsuc 0, s)
attach_checked func code arg (some p) none fd s = some (negsuc 0, s)
attach_checked func code arg (some p) (some t) none s = some (negsuc 0, s)
attach_checked func code arg (some p) (some t) (some fd) s =
    attach_in (record { fd = fd; fd_type = t; func = func; code = code; arg = arg; active = true })
      p s

-- `E_attach_fd`, on a machine with this FD_SETSIZE.
unfoldable pub attach_fd :
    (fd_setsize : ℕ) (fd fd_type : ℤ) (func code arg : ℕ) (priority : ℤ)
    → Descriptors
    → Option (ℤ × Descriptors)
unfolding attach_checked
attach_fd fd_setsize fd fd_type func code arg priority s =
    attach_checked func code arg (checked num_priority priority) (checked num_fdtypes fd_type)
      (checked fd_setsize fd) s

-- The loops of `E_set_active_threshold`, over the queues that there are from the priority on.
pub add_events : List FdEvent → Masks → Option Masks
add_events [] m = some m
add_events (e ∷ r) m =
    (if e.active then write_mask true e.fd e.fd_type m else some m) >>= λ m'. add_events r m'

pub add_queues : List FdQueue → Masks → Option Masks
unfolding add_events
add_queues [] m = some m
add_queues (q ∷ qs) m = add_events q.events m >>= λ m'. add_queues qs m'

abbrev pub from_priority : ℕ → List FdQueue → List FdQueue
from_priority zero qs = qs
from_priority (suc p) [] = []
from_priority (suc p) (q ∷ qs) = from_priority p qs

unfoldable pub set_active_threshold : ℤ → Descriptors → Option (ℤ × Descriptors)
unfolding add_queues
set_active_threshold (negsuc n) s = some (negsuc 0, s)
set_active_threshold (pos p) s =
    if ltb num_priority p
    then some (negsuc 0, s)
    else if p == s.active_priority
    then some (pos p, s)
    else add_queues (from_priority p s.fd_queue) (λ t fd. false) >>= λ m.
        some (pos p, record s { fd_mask = m; active_priority = p })

unfoldable pub num_active : ℤ → Descriptors → Option ℤ
num_active (negsuc n) s = some (negsuc 0)
num_active (pos p) s =
    if ltb num_priority p
    then some (negsuc 0)
    else get_elem? s.fd_queue p >>= λ q. some (pos q.num_active_fds)
