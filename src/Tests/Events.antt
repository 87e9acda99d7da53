-- ===== src/Tests/Events.antt =====
-- daemon/events.c on small inputs.
use in5020_distribuerte_syst.Prelude.{
  ℕ, ◌≡◌, refl, ◌↔◌, List, [], ◌∷◌, pos, negsuc, arith, ◌+ℤ◌, ◌-ℤ◌, ◌<ℤ◌, false,
}
use in5020_distribuerte_syst.Events.Time.{SpTime, million, add_time, compare_time}
use in5020_distribuerte_syst.Events.Time.Arithmetic.{
  IsNormal, micros, add_time_lem, compare_time_lem,
}
use in5020_distribuerte_syst.Events.Timers.{Callback, TimeEvent, queue, dequeue, next_turn}
use in5020_distribuerte_syst.Events.Timers.Map.{IsUnique, remove, insert_in_order, queue_refines}
use in5020_distribuerte_syst.Events.Timers.Order.{
  IsSorted, IsFair, queue-dequeue-IsSorted, next_turn-IsFair,
}

abbrev early : SpTime
early = record { sec = pos 5; usec = pos 600_000 }

abbrev late : SpTime
late = record { sec = pos 2; usec = pos 400_000 }

abbrev call : ℕ → Callback
call n = record { func = n; code = 0; arg = 0 }

abbrev two_events : List TimeEvent
two_events =
    record { t = early; call = call 1 }
    ∷ record { t = record { sec = pos 9; usec = pos 0 }; call = call 2 }
    ∷ []

-- A whole second stays in the microseconds.
add_carry : add_time early late ≡ record { sec = pos 7; usec = pos 1_000_000 }
unfolding add_time ◌+ℤ◌ ◌-ℤ◌
add_carry = refl

-- The event of callback 1 moves behind that of callback 2.
requeue :
    queue early (call 1) early two_events
    ≡ record { t = record { sec = pos 9; usec = pos 0 }; call = call 2 }
      ∷ record { t = record { sec = pos 11; usec = pos 200_000 }; call = call 1 }
      ∷ []
unfolding queue add_time ◌+ℤ◌ ◌-ℤ◌ compare_time
requeue = refl

early-IsNormal : IsNormal early
early-IsNormal = omega arith

late-IsNormal : IsNormal late
late-IsNormal = omega arith

add_time_lem_example :
    (micros (add_time early late) ≡ micros early +ℤ micros late)
    × (IsNormal (add_time early late) ↔ ¬ (early.usec +ℤ late.usec ≡ million))
add_time_lem_example = add_time_lem early-IsNormal late-IsNormal

compare_time_lem_example :
    ((compare_time early late ≡ pos 1) ↔ (micros late <ℤ micros early))
    × ((compare_time early late ≡ negsuc 0) ↔ (micros early <ℤ micros late))
    × ((compare_time early late ≡ pos 0) ↔ (micros early ≡ micros late))
compare_time_lem_example = compare_time_lem early-IsNormal late-IsNormal

two_events-IsUnique : IsUnique two_events
two_events-IsUnique = ((refl, tt), (tt, tt))

two_events-IsSorted : IsSorted two_events
unfolding compare_time
two_events-IsSorted = ((refl, tt), (tt, tt))

queue_refines_example :
    queue early (call 1) early two_events
    ≡ insert_in_order
        (record { t = add_time early early; call = call 1 })
        (remove (call 1) two_events)
queue_refines_example = queue_refines early (call 1) early two_events two_events-IsUnique

queue-dequeue-IsSorted_example :
    IsSorted (queue early (call 1) early two_events) × IsSorted (dequeue (call 1) two_events).1
queue-dequeue-IsSorted_example =
    queue-dequeue-IsSorted early (call 1) early two_events two_events-IsUnique two_events-IsSorted

next_turn-IsFair_example : IsFair early two_events (next_turn false early two_events)
next_turn-IsFair_example = next_turn-IsFair early two_events two_events-IsSorted
