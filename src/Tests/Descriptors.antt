-- ===== src/Tests/Descriptors.antt =====
-- daemon/events.c, the descriptors, on a small input.
use in5020_distribuerte_syst.Prelude.{
  ℕ, ◌≡◌, refl, [], ◌∷◌, none, some, pos, arith, true, false, ◌≢◌,
}
use in5020_distribuerte_syst.Events.Descriptors.{
  FdEvent, Descriptors, attach_fd, detach_fd, activate_fd, deactivate_fd, set_active_threshold,
  num_active,
}
use in5020_distribuerte_syst.Events.Descriptors.Counts.{
  count, IsCounted, AllCounted, Returns, change-Returns,
}
use in5020_distribuerte_syst.Events.Descriptors.Attach.{attach_fd-Returns}
use in5020_distribuerte_syst.Events.Descriptors.Masks.{
  IsTyped, AllTyped, IsThreshold, set_active_threshold-IsThreshold,
}

abbrev event : ℕ → FdEvent
event n = record { fd = n; fd_type = 0; func = 1; code = 0; arg = 0; active = true }

abbrev watching : Descriptors
watching = record {
  fd_queue =
      record { num_active_fds = 1; events = event 4 ∷ record (event 5) { active = false } ∷ [] }
      ∷ record { num_active_fds = 0; events = [] }
      ∷ record { num_active_fds = 1; events = event 6 ∷ [] }
      ∷ [];
  fd_mask = λ t fd. false;
  active_priority = 0;
}

watching-AllCounted : AllCounted watching.fd_queue
unfolding AllCounted IsCounted count
watching-AllCounted = (refl, (refl, (refl, tt)))

watching-IsTyped : IsTyped watching.fd_queue
unfolding IsTyped AllTyped
watching-IsTyped = ((omega arith, (omega arith, tt)), (tt, ((omega arith, tt), tt)))

num_active-watching : num_active (pos 2) watching ≡ some (pos 1)
unfolding num_active
num_active-watching = refl

-- The guard lets the priority 3 pass, which is outside the array.
num_active-outside : num_active (pos 3) watching ≡ none
unfolding num_active
num_active-outside = refl

zero_is_not_three : pos 0 ≢ pos 3
zero_is_not_three = cc

one_is_not_three : pos 1 ≢ pos 3
one_is_not_three = cc

two_is_not_three : pos 2 ≢ pos 3
two_is_not_three = cc

change-Returns_example :
    Returns (detach_fd 4 (pos 0) watching)
    × Returns (deactivate_fd 4 (pos 0) watching)
    × Returns (activate_fd 4 (pos 0) watching)
change-Returns_example =
    change-Returns 4 (pos 0) watching zero_is_not_three refl watching-AllCounted

attach_fd-Returns_example : Returns (attach_fd 1024 (pos 7) (pos 1) 2 0 0 (pos 2) watching)
attach_fd-Returns_example =
    attach_fd-Returns 1024 (pos 7) (pos 1) 2 0 0 (pos 2) watching two_is_not_three one_is_not_three
      refl watching-AllCounted

set_active_threshold-IsThreshold_example :
    (s' : Descriptors) × (set_active_threshold (pos 2) watching ≡ some (pos 2, s'))
    × IsThreshold 2 watching s'
set_active_threshold-IsThreshold_example =
    set_active_threshold-IsThreshold 2 watching (omega arith) (λ e. absurd (omega (arith, e)))
      watching-IsTyped
