-- ===== src/Events/Descriptors/Attach.antt =====
-- daemon/events.c: `num_active_fds` after `E_attach_fd`.
use in5020_distribuerte_syst.Prelude.{
  ℕ, suc, ◌+◌, ◌<◌, ◌≡◌, refl, sym, ◌∙◌, subst, ◌≢◌, Bool, true, false, Option, none, some, List,
  [], ◌∷◌, ◌++◌, arith, ltb, leb, ◌==◌, if◌then◌else◌, ◌>>=◌, length, ℤ, pos, negsuc,
}
use in5020_distribuerte_syst.Events.Descriptors.{
  FdEvent, FdQueue, Masks, Descriptors, num_priority, num_fdtypes, max_fd_events, write_mask,
  change_first, count_in, checked, with_queue, attached, install, attach_in, attach_checked,
  attach_fd,
}
use in5020_distribuerte_syst.Events.Descriptors.Counts.{
  bit_of, count, IsCounted, AllCounted, IsRecount, change_first-IsRecount, IsCountedStep,
  count_in-IsCountedStep, Returns, Returns-if, write_mask-some, get_elem?-IsCounted, set-AllCounted,
}

count-append : (xs ys : List FdEvent) → count (xs ++ ys) ≡ count xs + count ys
unfolding count
count-append [] ys = omega arith
count-append (x ∷ xs) ys = omega (arith, count-append xs ys)

module _ (e : FdEvent) (is_active : e.active ≡ true) (in_range : e.fd_type < 3) where
  maybe_set :
      (b : Bool) (m : Masks)
      → (m' : Masks) × ((if b then write_mask true e.fd e.fd_type m else some m) ≡ some m')
  maybe_set true m = write_mask-some true e.fd e.fd_type m in_range
  maybe_set false m = (m, refl)

  IsCounted-appended :
      (q : FdQueue)
      → IsCounted q
      → IsCounted (record { num_active_fds = suc q.num_active_fds; events = q.events ++ (e ∷ []) })
  unfolding IsCounted count
  IsCounted-appended q c = c' ∙ sym (count-append q.events (e ∷ []))
    where
      c' : suc q.num_active_fds ≡ count q.events + (bit_of e.active + 0)
      c' = rw is_active (omega (arith, c))

  attached-Returns :
      (p : ℕ) (s : Descriptors) (q : FdQueue) (o : Option (Bool × List FdEvent))
      → AllCounted s.fd_queue
      → IsCounted q
      → IsRecount (count q.events + 1) o
      → Returns (attached e p s q o)
  unfolding Returns IsCountedStep
  attached-Returns p s q (some x) h c r =
      set-AllCounted s.fd_queue p (count_in q x) (count_in-IsCountedStep q (some x) c r) h
  attached-Returns p s q none h c r =
      let new : FdQueue = record {
        num_active_fds = suc q.num_active_fds;
        events = q.events ++ (e ∷ []);
      } in
      let (m', set_up) = maybe_set (leb s.active_priority p) s.fd_mask in
      Returns-if (length q.events == max_fd_events) (some (negsuc 0, s))
        ((if leb s.active_priority p
            then write_mask true e.fd e.fd_type s.fd_mask
            else some s.fd_mask)
          >>= λ m. some (pos 0, with_queue s p new m))
        (λ _. h) (λ _. rw set_up (set-AllCounted s.fd_queue p new (IsCounted-appended q c) h))

  attach_in-Returns :
      (p : ℕ) (s : Descriptors)
      → p < length s.fd_queue
      → AllCounted s.fd_queue
      → Returns (attach_in e p s)
  unfolding change_first
  attach_in-Returns p s l h =
      let (q, found, c) = get_elem?-IsCounted s.fd_queue p l h in
      rw found (
        attached-Returns p s q (change_first (install e) e.fd e.fd_type q.events) h c
          (change_first-IsRecount (install e) true (λ old. is_active) e.fd e.fd_type q.events))

checked-some : (bound : ℕ) (z : ℤ) {n : ℕ} → checked bound z ≡ some n → z ≢ pos bound → n < bound
checked-some bound (negsuc k) e ne = cc
checked-some bound (pos k) {n} e ne = go (ltb bound k) refl e
  where
    go : (b : Bool) → ltb bound k ≡ b → (if b then none else some k) ≡ some n → n < bound
    go true b e = cc
    go false b e = grind arith

attach_checked-Returns :
    (func code arg : ℕ) (p t fd : Option ℕ) (s : Descriptors)
    → ((n : ℕ) → p ≡ some n → n < length s.fd_queue)
    → ((n : ℕ) → t ≡ some n → n < 3)
    → AllCounted s.fd_queue
    → Returns (attach_checked func code arg p t fd s)
unfolding attach_checked Returns
attach_checked-Returns func code arg none t fd s k l h = h
attach_checked-Returns func code arg (some p) none fd s k l h = h
attach_checked-Returns func code arg (some p) (some t) none s k l h = h
attach_checked-Returns func code arg (some p) (some t) (some fd) s k l h =
    attach_in-Returns
      (record { fd = fd; fd_type = t; func = func; code = code; arg = arg; active = true }) refl
      (l t refl) p s (k p refl) h

-- `E_attach_fd` with any priority but 3 and any type of descriptor but 3, which its guards let
-- pass, indexes neither `Fd_queue` nor `Fd_mask` outside, and where there are three queues and
-- `num_active_fds` of each is the number of its active events it keeps that.
pub attach_fd-Returns :
    (fd_setsize : ℕ) (fd fd_type : ℤ) (func code arg : ℕ) (priority : ℤ) (s : Descriptors)
    → priority ≢ pos 3
    → fd_type ≢ pos 3
    → length s.fd_queue ≡ 3
    → AllCounted s.fd_queue
    → Returns (attach_fd fd_setsize fd fd_type func code arg priority s)
unfolding attach_fd
attach_fd-Returns fd_setsize fd fd_type func code arg priority s np nt three h =
    attach_checked-Returns func code arg (checked num_priority priority)
      (checked num_fdtypes fd_type) (checked fd_setsize fd) s
      (λ n e. subst (λ k. n < k) (sym three) (checked-some 3 priority e np))
      (λ n e. checked-some 3 fd_type e nt) h
