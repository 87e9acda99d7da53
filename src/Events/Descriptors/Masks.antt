-- ===== src/Events/Descriptors/Masks.antt =====
-- daemon/events.c: `Fd_mask` after `E_set_active_threshold`.
use in5020_distribuerte_syst.Prelude.{
  ℕ, zero, suc, ◌<◌, ◌≤◌, ◌≡◌, refl, sym, ◌∙◌, ◌≢◌, Bool, true, false, ◌&&◌, ◌||◌, some, List, [],
  ◌∷◌, arith, ltb, ◌==◌, if◌then◌else◌, pos,
}
use in5020_distribuerte_syst.Events.Descriptors.{
  FdEvent, FdQueue, Masks, Descriptors, num_priority, write_mask, add_events, add_queues,
  from_priority, set_active_threshold,
}

-- Whether an active event of the list waits for this kind of event of the descriptor.
pub watches : ℕ → ℕ → List FdEvent → Bool
watches t fd [] = false
watches t fd (e ∷ r) = (e.active && ((t == e.fd_type) && (fd == e.fd))) || watches t fd r

pub watched : ℕ → ℕ → List FdQueue → Bool
watched t fd [] = false
watched t fd (q ∷ qs) = watches t fd q.events || watched t fd qs

-- Every event is of one of the three kinds, so that its mask is in the array.
unfoldable pub AllTyped : List FdEvent → Type 0
AllTyped [] = Unit
AllTyped (e ∷ r) = (e.fd_type < 3) × AllTyped r

unfoldable pub IsTyped : List FdQueue → Type 0
unfolding AllTyped
IsTyped [] = Unit
IsTyped (q ∷ qs) = AllTyped q.events × IsTyped qs

or_assoc : (a b c : Bool) → ((a || b) || c) ≡ (a || (b || c))
or_assoc true b c = refl
or_assoc false b c = refl

or_false : (a : Bool) → (a || false) ≡ a
or_false true = refl
or_false false = refl

set_if_or : (b m : Bool) → (if b then true else m) ≡ (m || b)
set_if_or true true = refl
set_if_or true false = refl
set_if_or false m = sym (or_false m)

-- The mask where the first event is set, if it is active.
first_set :
    (a : Bool) (x y : ℕ) (m : Masks)
    → y < 3
    → (m' : Masks) × ((if a then write_mask true x y m else some m) ≡ some m')
      × ((t fd : ℕ) → m' t fd ≡ (m t fd || (a && ((t == y) && (fd == x)))))
first_set true x y m l = (
  (λ t fd. if (t == y) && (fd == x) then true else m t fd),
  ground arith,
  (λ t fd. set_if_or ((t == y) && (fd == x)) (m t fd)),
)
first_set false x y m l = (m, refl, (λ t fd. sym (or_false (m t fd))))

add_events-watches :
    (es : List FdEvent) (m : Masks)
    → AllTyped es
    → (m' : Masks) × (add_events es m ≡ some m')
      × ((t fd : ℕ) → m' t fd ≡ (m t fd || watches t fd es))
unfolding AllTyped add_events watches
add_events-watches [] m h = (m, refl, (λ t fd. sym (or_false (m t fd))))
add_events-watches (e ∷ r) m (l, h) =
    let (m', set_up, same) = first_set e.active e.fd e.fd_type m l in
    let (m'', rest, sames) = add_events-watches r m' h in
    (
      m'',
      rw set_up rest,
      (λ t fd. sames t fd ∙ rw (same t fd) (or_assoc (m t fd) _ (watches t fd r))),
    )

add_queues-watched :
    (qs : List FdQueue) (m : Masks)
    → IsTyped qs
    → (m' : Masks) × (add_queues qs m ≡ some m')
      × ((t fd : ℕ) → m' t fd ≡ (m t fd || watched t fd qs))
unfolding IsTyped add_queues watched
add_queues-watched [] m h = (m, refl, (λ t fd. sym (or_false (m t fd))))
add_queues-watched (q ∷ qs) m (l, h) =
    let (m', set_up, same) = add_events-watches q.events m l in
    let (m'', rest, sames) = add_queues-watched qs m' h in
    (
      m'',
      rw set_up rest,
      (λ t fd. sames t fd ∙ rw (same t fd) (or_assoc (m t fd) _ (watched t fd qs))),
    )

from_priority-IsTyped : (p : ℕ) (qs : List FdQueue) → IsTyped qs → IsTyped (from_priority p qs)
unfolding IsTyped
from_priority-IsTyped zero qs h = h
from_priority-IsTyped (suc p) [] h = h
from_priority-IsTyped (suc p) (q ∷ qs) (l, h) = from_priority-IsTyped p qs h

-- What is expected of the state after a change of the threshold to `p`.
pub IsThreshold : ℕ → Descriptors → Descriptors → Type 0
IsThreshold p s s' =
    (s'.active_priority ≡ p)
    × (s'.fd_queue ≡ s.fd_queue)
    × ((t fd : ℕ) → s'.fd_mask t fd ≡ watched t fd (from_priority p s.fd_queue))

-- `E_set_active_threshold` with a priority up to 3 that is not the present one, where every event
-- is of one of the three kinds, returns the priority and leaves each mask with exactly the
-- descriptors of the active events that have that priority or a higher one.
pub set_active_threshold-IsThreshold :
    (p : ℕ) (s : Descriptors)
    → p ≤ 3
    → p ≢ s.active_priority
    → IsTyped s.fd_queue
    → (s' : Descriptors) × (set_active_threshold (pos p) s ≡ some (pos p, s')) × IsThreshold p s s'
unfolding set_active_threshold IsThreshold
set_active_threshold-IsThreshold p s l ne h =
    let (m', rebuilt, same) =
      add_queues-watched (from_priority p s.fd_queue) (λ t fd. false)
        (from_priority-IsTyped p s.fd_queue h) in
    let in_range : ltb num_priority p ≡ false = ground arith in
    let changed : (p == s.active_priority) ≡ false = ground arith in
    (
      record s { fd_mask = m'; active_priority = p },
      rw (in_range, changed, rebuilt) refl,
      (refl, refl, same),
    )
