-- ===== src/Events/Timers.antt =====
-- daemon/events.c, `Time_queue` with `E_queue` and `E_dequeue`, and the timer loop of
-- `E_handle_events`. The linked list is a list; the callbacks are function pointers, so numbers.
pub mod Map
pub mod Order
use in5020_distribuerte_syst.Prelude.{
  ℕ, Bool, true, false, ◌&&◌, not, ◌==◌, if◌then◌else◌, List, [], ◌∷◌, ℤ, pos, negsuc, ltb_ℤ,
}
use in5020_distribuerte_syst.Events.Time.{SpTime, add_time, sub_time, compare_time}

-- What identifies an event: the function, its code and its data pointer.
pub record Callback : Type 0 where
  pub func : ℕ
  pub code : ℕ
  pub arg : ℕ

-- `time_event`, without its link.
pub record TimeEvent : Type 0 where
  pub t : SpTime
  pub call : Callback

-- The test for a "simillar event".
abbrev pub same : Callback → Callback → Bool
same a b = (a.func == b.func) && ((a.arg == b.arg) && (a.code == b.code))

abbrev pub is_before : SpTime → SpTime → Bool
is_before a b = ltb_ℤ (compare_time a b) (pos 0)

module _ (e : TimeEvent) where
  -- The `while` loop of `E_queue` from `t_post` on, and the append after it.
  pub scan : Bool → Bool → List TimeEvent → List TimeEvent
  scan inserted deleted [] = if inserted then [] else e ∷ []
  scan inserted deleted (p ∷ rest) =
      let dropped = scan inserted true rest in
      let placed = scan true deleted rest in
      let passed = scan inserted deleted rest in
      if inserted && deleted
      then p ∷ rest
      else if same p.call e.call
      then dropped
      else if not inserted && is_before e.t p.t
      then e ∷ p ∷ placed
      else p ∷ passed

  -- The part of `E_queue` behind the test of the first event.
  pub place : Bool → List TimeEvent → List TimeEvent
  unfolding scan
  place deleted [] = e ∷ []
  place deleted (y ∷ r) =
      if is_before e.t y.t then e ∷ scan true deleted (y ∷ r) else y ∷ scan false deleted r

  pub insert_event : List TimeEvent → List TimeEvent
  unfolding place
  insert_event [] = place false []
  insert_event (x ∷ r) = if same x.call e.call then place true r else place false (x ∷ r)

-- `E_queue`, at the reading `now` of the clock. It returns 0 always.
unfoldable pub queue : SpTime → Callback → SpTime → List TimeEvent → List TimeEvent
unfolding insert_event
queue now call delta q = insert_event (record { t = add_time now delta; call = call }) q

-- `E_dequeue`: -1 where there is no such event.
unfoldable pub dequeue : Callback → List TimeEvent → ℤ × List TimeEvent
dequeue c [] = (negsuc 0, [])
dequeue c (x ∷ r) =
    let (ret, r') = dequeue c r in if same x.call c then (pos 0, r) else (ret, x ∷ r')

-- What one round of the `while` loop over the timers in `E_handle_events` decides.
pub data Turn : Type 0 where
  -- `timeout` stays at `long_timeout`
  idle : Turn
  -- the head is taken off and called
  fire : TimeEvent → List TimeEvent → Turn
  -- the loop ends with this `timeout`
  wait : SpTime → Turn

-- `first` holds until one round has found no urgent descriptor.
unfoldable pub next_turn : Bool → SpTime → List TimeEvent → Turn
next_turn first now [] = idle
next_turn first now (x ∷ r) =
    if not first && not (is_before now x.t) then fire x r else wait (sub_time x.t now)
