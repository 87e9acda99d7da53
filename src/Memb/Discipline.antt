-- ===== src/Memb/Discipline.antt =====
-- Which timers may wait in which state of daemon/membership.c.
pub mod Joins
pub mod Packets
pub mod Fill
pub mod Tokens
pub mod Gather
use in5020_distribuerte_syst.Prelude.{
  ℕ, ◌≡◌, refl, sym, subst, ap, ◌∙◌, Bool, true, false, not, ◌&&◌, ◌||◌, if◌then◌else◌, inl, inr,
  Bool-cases, Option-cases, Option, none, some, arith, List, ltb, ◌==◌, ◌>>=◌, >>=-eq-some,
}
use in5020_distribuerte_syst.Events.Time.{SpTime}
use in5020_distribuerte_syst.Events.Timers.{Callback, TimeEvent, same, queue, dequeue}
use in5020_distribuerte_syst.Memb.State.{
  Daemon, Phase, op, seg, represented, gather, form, evs, start, cancel, send, scast_alive_call,
  gather_or_represented_call, shift_to_seg_call, send_join_call, form_or_fail_call, token_loss_call,
  lookup_call, token_hurry_call, no_id,
}
use in5020_distribuerte_syst.Memb.State.Timers.{
  Only, queue-Only, queue-Only_or, dequeue-Only, weaken-Only,
}
use in5020_distribuerte_syst.Memb.Shift.{
  enter, shift_to_seg, shift_to_gather, shift_to_represented, gather_or_represented, scast_alive,
  send_join, lookup_new_members,
}
use in5020_distribuerte_syst.Conf.{
  Proc, Configuration, proc_by_id, leader, seg_leader, num_segments,
}
use in5020_distribuerte_syst.Memb.Reps.{ring_rep, seg_rep}
use in5020_distribuerte_syst.Memb.Handlers.{
  contains_id, remember, first_rep, asked, answered, other_ring, refer_to, join_in, join_in_seg,
  join_in_represented, is_my_rep, from_known, refer_in, foreign_in, lose_to, handle_alive, alive_in,
  Join, join_in_op, join_in_gather, handle_join, handle_refer, handle_foreign, pass_on,
}
use in5020_distribuerte_syst.Memb.Loss.{token_loss, drop_ring, update_potential, backoff_membership}

abbrev pub is_seg : Phase → Bool
is_seg seg = true
is_seg _ = false

abbrev pub is_represented : Phase → Bool
is_represented represented = true
is_represented _ = false

abbrev pub is_gather : Phase → Bool
is_gather gather = true
is_gather _ = false

-- Where `Memb_token_loss` is no bug.
abbrev pub may_lose : Phase → Bool → Bool
may_lose op alive = true
may_lose seg alive = false
may_lose represented alive = false
may_lose gather alive = alive
may_lose form alive = true
may_lose evs alive = true

-- The callbacks that may wait.
abbrev pub allowed : Phase → Bool → Callback → Bool
allowed s alive c =
    (not (same scast_alive_call c) || is_seg s)
    && ((not (same gather_or_represented_call c) || is_seg s)
        && ((not (same shift_to_seg_call c) || is_represented s)
            && ((not (same send_join_call c) || is_gather s)
                && ((not (same form_or_fail_call c) || is_gather s)
                    && (not (same token_loss_call c) || may_lose s alive)))))

abbrev pub TokenFits : Phase → Bool → Type 0
TokenFits op alive = alive ≡ true
TokenFits seg alive = alive ≡ false
TokenFits represented alive = alive ≡ false
TokenFits gather alive = Unit {0}
TokenFits form alive = alive ≡ false
TokenFits evs alive = alive ≡ true

pub record InPhase (d : Daemon) : Type 0 where
  -- `GlobalStatus.state` is `State`
  pub mirrored : d.status_state ≡ d.phase
  pub token : TokenFits d.phase d.token_alive
  pub fits : Only (allowed d.phase d.token_alive) d.timers

-- As `InPhase`, with the timers that pass a test of their own.
pub record Ready (test : Callback → Bool) (d : Daemon) : Type 0 where
  pub mirrored : d.status_state ≡ d.phase
  pub token : TokenFits d.phase d.token_alive
  pub fits : Only test d.timers

-- The state in which a callback runs: its event is off the list.
abbrev pub Fired : Callback → Daemon → Type 0
Fired k d = Ready (λ c. allowed d.phase d.token_alive c && not (same k c)) d

pub Fired-InPhase : (k : Callback) (d : Daemon) → Fired k d → InPhase d
Fired-InPhase k d v = record {
  mirrored = v.mirrored;
  token = v.token;
  fits = weaken-Only _ _ _ (λ c h. ground arith) v.fits;
}

pub shift_to_represented-InPhase :
    (d : Daemon) → d.phase ≡ seg → InPhase d → InPhase (shift_to_represented d)
unfolding shift_to_represented
shift_to_represented-InPhase d e v = record {
  mirrored = refl;
  token = subst (λ s. TokenFits s d.token_alive) e v.token;
  fits = queue-Only _ _ _ _ _ refl (
      weaken-Only _ _ _ (λ c h. ground arith)
        (dequeue-Only _ gather_or_represented_call _ (dequeue-Only _ scast_alive_call _ v.fits)));
}

pub shift_to_seg-InPhase :
    (d : Daemon) → d.phase ≡ represented → Fired shift_to_seg_call d → InPhase (shift_to_seg d)
unfolding shift_to_seg
shift_to_seg-InPhase d e v = record {
  mirrored = refl;
  token = subst (λ s. TokenFits s d.token_alive) e v.token;
  fits =
      weaken-Only _ _ _ (λ c h. ground arith)
        (queue-Only_or _ _ gather_or_represented_call _ _
          (queue-Only_or _ _ scast_alive_call _ _ v.fits));
}

-- `Shift_to_gather`, from a state whose timers it clears.
pub shift_to_gather-InPhase :
    (test : Callback → Bool) (d : Daemon)
    → ((c : Callback)
        → allowed gather d.token_alive c ≡ false
        → (test c && not (same scast_alive_call c)) ≡ false)
    → Only test d.timers
    → InPhase (shift_to_gather d)
unfolding shift_to_gather
shift_to_gather-InPhase test d h o = record {
  mirrored = refl;
  token = tt;
  fits = queue-Only _ _ form_or_fail_call _ _ refl (
      queue-Only _ _ send_join_call _ _ refl (
        weaken-Only _ _ _ (λ c f. ground (arith, h c))
          (dequeue-Only _ lookup_call _ (dequeue-Only _ scast_alive_call _ o))));
}

-- The part of `Memb_token_loss` behind the `switch`, in a state where it is no bug.
pub drop_ring-InPhase :
    (d : Daemon)
    → is_represented d.phase ≡ false
    → Only (allowed d.phase d.token_alive) d.timers
    → InPhase (drop_ring d)
unfolding drop_ring
drop_ring-InPhase d h o = record {
  mirrored = refl;
  token = refl;
  fits =
      weaken-Only _ _ _ (λ c f. ground arith)
        (dequeue-Only _ lookup_call _ (
          dequeue-Only _ token_hurry_call _ (
            dequeue-Only _ form_or_fail_call _ (
              dequeue-Only _ send_join_call _ (
                dequeue-Only _ token_loss_call _ (
                  queue-Only_or _ _ gather_or_represented_call _ _
                    (queue-Only_or _ _ scast_alive_call _ _ o)))))));
}

pub some-eq {ℓ} : {A : Type ℓ} {a b : A} → some a ≡ some b → a ≡ b
some-eq h = cc

-- What `update_potential` leaves alone.
pub record SameTimers (d d' : Daemon) : Type 0 where
  pub timers : d'.timers ≡ d.timers
  pub phase : d'.phase ≡ d.phase
  pub alive : d'.token_alive ≡ d.token_alive

update_potential-SameTimers :
    (d d' : Daemon)
    → update_potential d ≡ some d'
    → SameTimers d d' × (is_represented d.phase ≡ false)
unfolding update_potential backoff_membership
update_potential-SameTimers d d' e = ground arith

-- After `Memb_token_loss` the daemon is in state SEG with no token, and the timers fit that.
pub token_loss-InPhase :
    (d d' : Daemon)
    → Only (allowed d.phase d.token_alive) d.timers
    → token_loss d ≡ some d'
    → InPhase d'
unfolding token_loss
token_loss-InPhase d d' o e =
    let (m, found, f) = >>=-eq-some (update_potential d) _ e in
    let (s, p) = update_potential-SameTimers d m found in
    subst InPhase (some-eq f)
      (drop_ring-InPhase m (rw s.phase p) (rw (s.timers, s.phase, s.alive) o))

-- What the handlers and callbacks of this state leave alone.
pub record SameState (d d' : Daemon) : Type 0 where
  pub timers : d'.timers ≡ d.timers
  pub phase : d'.phase ≡ d.phase
  pub alive : d'.token_alive ≡ d.token_alive
  pub status : d'.status_state ≡ d.status_state

pub SameState-InPhase : (d d' : Daemon) → SameState d d' → InPhase d → InPhase d'
SameState-InPhase d d' s v = record {
  mirrored = s.status ∙ v.mirrored ∙ sym s.phase;
  token = rw (s.phase, s.alive) v.token;
  fits = rw (s.timers, s.phase, s.alive) v.fits;
}

-- What a handler may do: exit, or leave the daemon in a state that its timers fit.
abbrev pub Keeps : Option Daemon → Type 0
Keeps none = Unit
Keeps (some d) = InPhase d

pub Keeps-if : (b : Bool) (m n : Option Daemon) → Keeps m → Keeps n → Keeps (if b then m else n)
Keeps-if true m n h k = h
Keeps-if false m n h k = k

pub Keeps-test :
    (b : Bool) (m n : Option Daemon)
    → (b ≡ true → Keeps m)
    → (b ≡ false → Keeps n)
    → Keeps (if b then m else n)
Keeps-test true m n h k = h refl
Keeps-test false m n h k = k refl

pub InPhase-if : (b : Bool) (m n : Daemon) → InPhase m → InPhase n → InPhase (if b then m else n)
InPhase-if true m n h k = h
InPhase-if false m n h k = k

pub Keeps->>= :
    {A : Type 0} (m : Option A) (f : A → Option Daemon) → ((a : A) → Keeps (f a)) → Keeps (m >>= f)
Keeps->>= none f h = tt
Keeps->>= (some a) f h = h a

pub Keeps-bind :
    {A : Type 0} (m : Option A) (f : A → Option Daemon)
    → ((a : A) → m ≡ some a → Keeps (f a))
    → Keeps (m >>= f)
Keeps-bind none f h = tt
Keeps-bind (some a) f h = h a refl

pub Keeps-some : (m : Option Daemon) → ((d : Daemon) → m ≡ some d → InPhase d) → Keeps m
Keeps-some none h = tt
Keeps-some (some d) h = h d refl

pub token_loss-Keeps : (d : Daemon) → InPhase d → Keeps (token_loss d)
token_loss-Keeps d v = Keeps-some (token_loss d) (λ d' e. token_loss-InPhase d d' v.fits e)

-- E_queue of a callback that may wait in this state.
pub start-InPhase :
    (k : Callback) (delta : SpTime) (d : Daemon)
    → allowed d.phase d.token_alive k ≡ true
    → InPhase d
    → InPhase (start k delta d)
unfolding start
start-InPhase k delta d h v = record {
  mirrored = v.mirrored;
  token = v.token;
  fits = queue-Only _ _ k delta _ h v.fits;
}

pub allowed_in :
    (d : Daemon) (s : Phase) (k : Callback)
    → d.phase ≡ s
    → allowed s d.token_alive k ≡ true
    → allowed d.phase d.token_alive k ≡ true
allowed_in d s k e h = subst (λ t. allowed t d.token_alive k ≡ true) (sym e) h

-- The shift from state OP.
pub op_to_gather-InPhase : (d : Daemon) → d.phase ≡ op → InPhase d → InPhase (shift_to_gather d)
op_to_gather-InPhase d e v =
    shift_to_gather-InPhase (allowed d.phase d.token_alive) d (λ c h. ground (arith, alive)) v.fits
  where
    alive : d.token_alive ≡ true
    alive = subst (λ s. TokenFits s d.token_alive) e v.token

-- Fields that the invariant does not read.
pub framed :
    (d d' : Daemon)
    → InPhase d
    → d'.timers ≡ d.timers
    → d'.phase ≡ d.phase
    → d'.token_alive ≡ d.token_alive
    → d'.status_state ≡ d.status_state
    → InPhase d'
framed d d' v t p a s =
    SameState-InPhase d d' (record { timers = t; phase = p; alive = a; status = s }) v
