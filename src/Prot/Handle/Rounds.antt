-- ===== src/Prot/Handle/Rounds.antt =====
-- daemon/protocol.c: a token that is taken outside EVS keeps the state of the packets.
use in5020_distribuerte_syst.Prelude.{
  ℕ, suc, ◌-◌, ◌≤◌, ◌≡◌, refl, sym, ap, ◌∙◌, subst, Bool, true, false, ◌&&◌, ltb, leb,
  if◌then◌else◌, List, Option, none, some, arith, Bool-cases, inl, inr,
}
use in5020_distribuerte_syst.Memb.State.{Daemon, start}
use in5020_distribuerte_syst.Memb.Regular.{is_evs}
use in5020_distribuerte_syst.Prot.Store.{Store, TokenHeader, RingRtr}
use in5020_distribuerte_syst.Prot.Deliver.{deliver_agreed, deliver_reliable}
use in5020_distribuerte_syst.Prot.Deliver.Stream.{Ring, IsFramed}
use in5020_distribuerte_syst.Prot.Deliver.Order.{IsSound, IsAgreed, deliver_agreed-IsAgreed}
use in5020_distribuerte_syst.Prot.Deliver.Extend.{framed_in-IsSound}
use in5020_distribuerte_syst.Prot.Deliver.Early.{IsThere, deliver_reliable-IsThere}
use in5020_distribuerte_syst.Prot.Deliver.Discard.{discard_old-IsSound}
use in5020_distribuerte_syst.Prot.Receive.Insert.{raise-found}
use in5020_distribuerte_syst.Prot.Evs.{with_store, discard_packets}
use in5020_distribuerte_syst.Prot.Token.{Answers, get_retrans, my_requests}
use in5020_distribuerte_syst.Prot.Token.Aru.{next_aru_lem}
use in5020_distribuerte_syst.Prot.Handle.{holds_token, with_net, send_token, count_if}
use in5020_distribuerte_syst.Prot.Handle.Token.{
  settle, pass_token, counted, keep_token, next_token, commit_if_done, compute_token, send_on,
  token_timers, next_flow,
}

counted-IsSound :
    (ring : Ring) (num_retrans num_sent : ℕ) (s : Store)
    → IsSound ring s
    → IsSound ring (counted num_retrans num_sent s)
counted-IsSound ring num_retrans num_sent s v =
    let (low, high, all) = raise-found (s.highest_seq - s.my_aru) s.my_aru s.exist in
    let a = v.ahead in
    let t = v.top in
    record {
      behind = v.behind;
      ahead = omega (arith, low);
      top = omega (arith, high);
      room = v.room;
      flags = v.flags;
      stored = v.stored;
      held = λ i l m. elim (Bool-cases (leb i s.my_aru)) [
        | inl old ↦ v.held i l (ground arith)
        | inr new ↦ all i (ground arith) m
      ];
      done = v.done;
      early = v.early;
      stream = record {
        in_line = v.stream.in_line;
        in_parts = v.stream.in_parts;
        no_part = v.stream.no_part;
      };
    }

-- A step that returns a sound store with these numbers.
Goes : Ring → (aru my_aru highest_seq : ℕ) → Option Store → Type 0
Goes ring aru my_aru highest_seq o =
    (s : Store) × (o ≡ some s)
    × IsSound ring s
    × (s.aru ≡ aru)
    × (s.my_aru ≡ my_aru)
    × (s.highest_seq ≡ highest_seq)

agreed-Goes :
    (ring : Ring) (f : IsFramed ring) (aru my_aru high low : ℕ) (o : Option Store)
    → IsAgreed ring f aru my_aru high low o
    → Goes ring aru my_aru high o
unfolding IsAgreed Goes
agreed-Goes ring f aru my_aru high low none h = absurd h
agreed-Goes ring f aru my_aru high low (some s) (v, (a, m, t, l), p) = (s, refl, v, a, m, t)

there-Goes :
    (ring : Ring) (aru my_aru high low last : ℕ) (o : Option Store)
    → IsThere ring aru my_aru high low last o
    → Goes ring aru my_aru high o
unfolding IsThere Goes
there-Goes ring aru my_aru high low last none h = absurd h
there-Goes ring aru my_aru high low last (some s) (v, (a, m, t, l, p)) = (s, refl, v, a, m, t)

-- A daemon in the same state, with the numbers of the packets up to `my_aru` and `highest_seq`.
record IsReady (ring : Ring) (d : Daemon) (my_aru highest_seq : ℕ) (e : Daemon) : Type 0 where
  phase : e.phase ≡ d.phase
  sound : IsSound ring e.store
  mine : e.my_aru ≡ my_aru
  high : e.highest_seq ≡ highest_seq

send_on-IsReady :
    (ring : Ring) (d e : Daemon) (m h : ℕ) (leads : Bool) (t : TokenHeader) (rtrs : List RingRtr)
    → IsReady ring d m h e
    → IsReady ring d m h (send_on leads t rtrs e)
unfolding send_on
send_on-IsReady ring d e m h leads t rtrs r = go (leads && holds_token e)
  where
    sent : Daemon
    sent =
        with_store e (
          with_net e.store
            (send_token (suc (count_if (ltb 1 (get_retrans t.kind)) 2)) t rtrs e.net))

    go : (b : Bool) → IsReady ring d m h (if b then e else sent)
    go true = r
    go false = record {
      phase = r.phase;
      sound = framed_in-IsSound ring e.store sent.store r.sound;
      mine = r.mine;
      high = r.high;
    }

timers-IsReady :
    (ring : Ring) (d e : Daemon) (m h : ℕ) (leads : Bool)
    → IsReady ring d m h e
    → IsReady ring d m h (token_timers leads e)
unfolding start
timers-IsReady ring d e m h true r = record {
  phase = r.phase;
  sound = r.sound;
  mine = r.mine;
  high = r.high;
}
timers-IsReady ring d e m h false r = record {
  phase = r.phase;
  sound = r.sound;
  mine = r.mine;
  high = r.high;
}

module _ (ring : Ring) (framed : IsFramed ring) where
  discard_packets-Goes :
      (d : Daemon)
      → is_evs d.phase ≡ false
      → d.aru ≤ d.my_aru
      → IsSound ring d.store
      → (s : Store) × (discard_packets d ≡ some (with_store d s))
        × IsSound ring s
        × (s.aru ≡ d.aru)
        × (s.my_aru ≡ d.my_aru)
        × (s.highest_seq ≡ d.highest_seq)
  unfolding discard_packets
  discard_packets-Goes d regular l v = elim (Bool-cases (leb d.aru d.last_discarded)) [
    | inl low ↦ (d.store, rw low refl, v, refl, refl, refl)
    | inr high ↦
        let (s, e, v', a, m, t, x) = discard_old-IsSound ring framed d.store l v in
        (s, rw (high, regular, e) refl, v', a, m, t)
  ]

  -- Outside EVS, where `Aru` is at most `My_aru`, the deliveries at the end of `Prot_handle_token`
  -- return.
  settle-Goes :
      (num_sent : ℕ) (d : Daemon)
      → is_evs d.phase ≡ false
      → d.aru ≤ d.my_aru
      → num_sent ≤ d.highest_seq
      → IsSound ring d.store
      → (s : Store) × (settle num_sent d ≡ some (with_store d s))
        × IsSound ring s
        × (s.aru ≡ d.aru)
        × (s.my_aru ≡ d.my_aru)
        × (s.highest_seq ≡ d.highest_seq)
  unfolding settle Goes
  settle-Goes num_sent d regular l m v =
      let (s, e, v', a, b, c) = discard_packets-Goes d regular l v in
      let (s', e', v'', a', b', c') =
        agreed-Goes ring framed s.aru s.my_aru s.highest_seq s.last_discarded
          (deliver_agreed false s) (deliver_agreed-IsAgreed ring framed s v') in
      let (t, e'', w, a'', b'', c'') =
        there-Goes ring s'.aru s'.my_aru s'.highest_seq s'.last_discarded s'.last_delivered
          (deliver_reliable false (suc s'.highest_seq - num_sent) num_sent s')
          (deliver_reliable-IsThere ring (suc s'.highest_seq - num_sent) num_sent s'
            (omega (arith, m, c, c')) v'') in
      (t, rw (e, regular, e', e'') refl, w, a'' ∙ a' ∙ a, b'' ∙ b' ∙ b, c'' ∙ c' ∙ c)

  -- The token of a daemon outside EVS, and the daemon that has computed it.
  compute_token-IsReady :
      (leads : Bool) (t : TokenHeader) (kept : List RingRtr) (a : Answers) (num_sent : ℕ)
      (d : Daemon)
      → is_evs d.phase ≡ false
      → IsSound ring d.store
      → let my_aru = (counted a.num_retrans num_sent d.store).my_aru in
        let x = compute_token leads t kept a num_sent d in
        IsReady ring d my_aru d.highest_seq x.2 × (x.0.aru ≤ my_aru)
  unfolding compute_token next_token
  compute_token-IsReady leads t kept a num_sent d regular v =
      let e = with_store d (counted a.num_retrans num_sent d.store) in
      let rtrs = my_requests e.store d.membership_id kept a in
      let flow = next_flow t.flow_control d.store a.num_retrans num_sent in
      let set_aru = (next_token leads e rtrs flow t).1 in
      let same : commit_if_done e ≡ e = rw regular refl in
      subst
        (λ c.
          let y = next_token leads c rtrs flow t in
          IsReady ring d e.my_aru d.highest_seq (with_store c (record c.store { set_aru = y.1 }))
          × (y.0.aru ≤ e.my_aru))
        (sym same)
        (
          record {
            phase = refl;
            sound =
                framed_in-IsSound ring e.store (record e.store { set_aru = set_aru })
                  (counted-IsSound ring a.num_retrans num_sent d.store v);
            mine = refl;
            high = refl;
          },
          (next_aru_lem t d.my.id e.my_aru d.highest_seq d.set_aru).0,
        )

  -- Outside EVS, where no more datagrams were sent than there are packets, the part of
  -- Prot_handle_token behind the new packets returns, and keeps the state of the packets; then Aru
  -- is at most My_aru, which has not gone down, and the state is the same.
  pub pass_token-IsSound :
      (leads : Bool) (t : TokenHeader) (kept : List RingRtr) (a : Answers) (num_sent : ℕ)
      (d : Daemon)
      → is_evs d.phase ≡ false
      → num_sent ≤ d.highest_seq
      → IsSound ring d.store
      → (d' : Daemon) × (pass_token leads t kept a num_sent d ≡ some d')
        × IsSound ring d'.store
        × (d'.aru ≤ d'.my_aru)
        × (d.my_aru ≤ d'.my_aru)
        × (d'.phase ≡ d.phase)
  unfolding pass_token keep_token
  pass_token-IsSound leads t kept a num_sent d regular l v =
      let x = compute_token leads t kept a num_sent d in
      let (ready, low) = compute_token-IsReady leads t kept a num_sent d regular v in
      let my_aru = (counted a.num_retrans num_sent d.store).my_aru in
      let timed = token_timers leads (send_on leads x.0 x.1 x.2) in
      let r =
        timers-IsReady ring d (send_on leads x.0 x.1 x.2) my_aru d.highest_seq leads
          (send_on-IsReady ring d x.2 my_aru d.highest_seq leads x.0 x.1 ready) in
      let last = with_store timed (keep_token x.0 timed.store) in
      let below : last.aru ≤ last.my_aru = ground (arith, r.mine, low) in
      let (up, high, all) = raise-found (d.highest_seq - d.my_aru) d.my_aru d.exist in
      let (s, e, w, a', m', h') =
        settle-Goes num_sent last (ap is_evs r.phase ∙ regular) below (omega (arith, l, r.high))
          (framed_in-IsSound ring timed.store (keep_token x.0 timed.store) r.sound) in
      (
        with_store last s,
        e,
        w,
        omega (arith, a', m', below),
        omega (arith, up, m', r.mine),
        r.phase,
      )
