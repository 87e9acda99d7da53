-- ===== src/Flow/Window.antt =====
-- daemon/flow_control.c: what FC_allowed grants, and who may change the windows.
use in5020_distribuerte_syst.Prelude.{
  ℕ, zero, suc, [], ◌∷◌, ◌+◌, ◌<◌, ◌≡◌, refl, ◌⊎◌, inl, inr, Bool, true, false, not, ◌&&◌,
  if◌then◌else◌, ltb, List, some, get_elem?, length, ℤ, pos, ◌+ℤ◌, ◌-ℤ◌, ◌≤ℤ◌, ◌<ℤ◌, arith,
  Bool-cases,
}
use in5020_distribuerte_syst.Conf.{Configuration, Proc, num_procs, proc_by_id}
use in5020_distribuerte_syst.Flow.{
  Windows, Request, at_least, at_most, max_seq_gap, fc_allowed, set_windows, is_legal,
  fc_handle_message,
}

-- What `FC_allowed` may return, where `left` is what the windows leave together.
pub IsGrant : ℤ → ℤ → ℤ → Bool → ℤ → Type 0
IsGrant window personal left free a =
    (pos 0 ≤ℤ a) × (a ≤ℤ window) × (a ≤ℤ personal) × (pos 0 <ℤ a → (free ≡ true) × (a ≤ℤ left))

clamp-IsGrant :
    (window personal left : ℤ)
    → pos 0 ≤ℤ window
    → pos 0 ≤ℤ personal
    → IsGrant window personal left true (at_most personal (at_most window (at_least (pos 0) left)))
unfolding IsGrant
clamp-IsGrant window personal left m n =
    (ground arith, ground arith, ground arith, (λ h. (refl, ground arith)))

none-IsGrant :
    (window personal left : ℤ) (free : Bool)
    → pos 0 ≤ℤ window
    → pos 0 ≤ℤ personal
    → IsGrant window personal left free (pos 0)
unfolding IsGrant
none-IsGrant window personal left free m n =
    (omega arith, omega (arith, m), omega (arith, n), (λ h. absurd (omega (arith, h))))

-- Where neither window is negative, `FC_allowed` returns no negative number and no more than either
-- window; and where it allows anything, the state is not EVS, the highest sequence number is within
-- the gap of `Aru`, and it allows no more than both windows together leave.
pub fc_allowed-IsGrant :
    (evs : Bool) (highest_seq aru : ℕ) (flow_control : ℤ) (w : Windows)
    → pos 0 ≤ℤ w.window
    → pos 0 ≤ℤ w.personal_window
    → IsGrant w.window w.personal_window
        (w.window +ℤ w.personal_window -ℤ flow_control)
        (not evs && not (ltb (aru + max_seq_gap) highest_seq))
        (fc_allowed evs highest_seq aru flow_control w)
unfolding fc_allowed
fc_allowed-IsGrant true highest_seq aru flow_control w m n =
    none-IsGrant w.window w.personal_window _ false m n
fc_allowed-IsGrant false highest_seq aru flow_control w m n =
    go (ltb (aru + max_seq_gap) highest_seq)
  where
    go :
        (b : Bool)
        → IsGrant w.window w.personal_window
            (w.window +ℤ w.personal_window -ℤ flow_control)
            (not b)
            (if b
              then pos 0
              else at_most w.personal_window (
                  at_most w.window
                    (at_least (pos 0) (w.window +ℤ w.personal_window -ℤ flow_control))))
    go true = none-IsGrant w.window w.personal_window _ false m n
    go false = clamp-IsGrant w.window w.personal_window _ m n

-- GlobalStatus shows the windows.
unfoldable pub IsShown : Windows → Type 0
IsShown w = (w.status_window ≡ w.window) × (w.status_personal_window ≡ w.personal_window)

get_elem?-some : (xs : List ℤ) (i : ℕ) → i < length xs → (x : ℤ) × (get_elem? xs i ≡ some x)
get_elem?-some [] i l = absurd (omega arith)
get_elem?-some (x ∷ xs) zero l = (x, refl)
get_elem?-some (x ∷ xs) (suc i) l = get_elem?-some xs i (omega arith)

-- Where the process is in the table and the request has a place for it and one behind all
-- processes, `FC_handle_message` returns, GlobalStatus shows the windows if it did before, and the
-- windows are as before unless the monitor is allowed to change them, the request is a monitor's
-- and its sender is in the configuration.
pub fc_handle_message-IsShown :
    (dangerous : Bool) (table : List Proc) (cn : Configuration) (my_id : ℕ) (r : Request)
    (w : Windows) (i : ℕ) (me : Proc)
    → proc_by_id table my_id ≡ some (i, me)
    → i < length r.cur_fc_buf
    → num_procs cn < length r.cur_fc_buf
    → IsShown w
    → (w' : Windows) × (fc_handle_message dangerous table cn my_id r w ≡ some w')
      × IsShown w'
      × ((w' ≡ w) ⊎ ((dangerous ≡ true) × (is_legal cn r ≡ true)))
unfolding fc_handle_message IsShown
fc_handle_message-IsShown false table cn my_id r w i me found l m h = (w, refl, h, inl refl)
fc_handle_message-IsShown true table cn my_id r w i me found l m h =
    elim (Bool-cases (is_legal cn r)) [
      | inl legal ↦
          let (a, read_a) = get_elem?-some r.cur_fc_buf (num_procs cn) m in
          let (b, read_b) = get_elem?-some r.cur_fc_buf i l in
          (
            set_windows a b w,
            rw (legal, found, read_a, read_b) refl,
            (refl, refl),
            inr (refl, legal),
          )
      | inr illegal ↦ (w, rw illegal refl, h, inl refl)
    ]
