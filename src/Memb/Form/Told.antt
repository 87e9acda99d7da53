-- ===== src/Memb/Form/Told.antt =====
-- daemon/membership.c: what a `ring_info` tells when `Fill_form1` has passed some daemons of its ring.
use in5020_distribuerte_syst.Prelude.{
  ℕ, suc, ◌-◌, ◌≡◌, ◌≤◌, ◌<◌, refl, sym, ap, ◌∙◌, subst, Bool, true, false, not, ◌&&◌, ◌||◌, leb,
  ◌==◌, ==_refl, [], ◌∷◌, take, length, length-append, ◌++◌, some, arith, pos,
}
use in5020_distribuerte_syst.Prot.Store.{Store, pack_entry}
use in5020_distribuerte_syst.Memb.State.{Daemon}
use in5020_distribuerte_syst.Memb.Members.{MembersInfo, active, max_procs_ring}
use in5020_distribuerte_syst.Memb.Members.Insert.{
  IsValid, contains, IsDistinct, IsDistinct-append, length-take,
}
use in5020_distribuerte_syst.Memb.Rings.{RingInfo}
use in5020_distribuerte_syst.Memb.Form.{own_ring}
use in5020_distribuerte_syst.Memb.Form.Fill.{
  merge_ring, insert_all, no_members, drop, greater, shared_holes,
}
use in5020_distribuerte_syst.Memb.Form.Sets.{
  add_all, insert_all_refines, no_members-IsValid, active-length, add_all-distinct, add_all-front,
  take-front, append_append,
}
use in5020_distribuerte_syst.Memb.Form.Holes.{contains-shared_holes, contains-holes_in}

-- A daemon has a packet.
abbrev pub has_packet : Store → ℕ → Bool
has_packet s q = leb q s.highest_seq && not (s.exist (pack_entry q) == 0)

-- What the daemons have that are in the transitional set: behind the aru, the holes are the packets that
-- none of them has.
pub record IsTold (have : ℕ → Bool) (r : RingInfo) : Type 0 where
  pub told : (q : ℕ) → r.aru < q → q ≤ r.highest_seq → contains r.holes q ≡ not (have q)
  pub top : (q : ℕ) → r.highest_seq < q → have q ≡ false
  pub trans : IsDistinct (take r.num_trans r.procs)
  pub long : r.num_trans ≤ length r.procs

-- The first daemon of a ring tells what it has, where it has all up to the number that it starts from.
pub own_ring-IsTold :
    (after : ℕ) (d : Daemon)
    → ((q : ℕ) → d.aru < q → q ≤ after → has_packet d.store q ≡ true)
    → IsTold (has_packet d.store) (own_ring after d)
unfolding own_ring
own_ring-IsTold after d low = record {
  told = λ q l h.
      contains-holes_in d.exist (d.highest_seq - after) (suc after) q ∙ ground (arith, low q, l, h);
  top = λ q h. ground (arith, h);
  trans = (refl, tt);
  long = omega arith;
}

abbrev new_trans : RingInfo → ℕ → MembersInfo
new_trans r my = insert_all (my ∷ []) (insert_all (take r.num_trans r.procs) no_members)

-- The transitional set with one more member.
trans_set :
    (r : RingInfo) (my : ℕ)
    → IsDistinct (take r.num_trans r.procs)
    → r.num_trans ≤ length r.procs
    → contains (take r.num_trans r.procs) my ≡ false
    → r.num_trans < max_procs_ring
    → IsValid (new_trans r my)
      × (active (new_trans r my) ≡ take r.num_trans r.procs ++ (my ∷ []))
      × ((new_trans r my).num_members ≡ suc r.num_trans)
trans_set r my d long new few =
    let ids = take r.num_trans r.procs in
    let size = length-take r.num_trans r.procs long in
    let (v, e) = insert_all_refines ids no_members no_members-IsValid in
    let (w, f) = insert_all_refines (my ∷ []) (insert_all ids no_members) v in
    let same = add_all-distinct ids [] d (omega (arith, size, few)) in
    let more = length-append ids (my ∷ []) in
    let both =
      f
      ∙ ap (λ xs. add_all xs (my ∷ [])) (e ∙ same)
      ∙ add_all-distinct (my ∷ []) ids (IsDistinct-append ids my d new)
          (omega (arith, size, few, more)) in
    (w, both, sym (active-length (new_trans r my) w) ∙ ap length both ∙ omega (arith, more, size))

-- What `Fill_form1` writes for its ring.
abbrev merged : RingInfo → Daemon → RingInfo
merged r d = record {
  memb_id = d.membership_id;
  trans_time = pos 0;
  aru = greater r.aru d.aru;
  highest_seq = greater r.highest_seq d.highest_seq;
  holes = shared_holes d.exist d.highest_seq r;
  procs = active (
      insert_all (take d.commit_set.num_members d.commit_set.members)
        (insert_all (drop r.num_trans r.procs) (new_trans r d.my.id)));
  num_trans = suc r.num_trans;
}

-- Where a ring tells what its transitional members have (behind its aru, the holes are exactly the
-- packets that none of them has), the daemon is a new one among fewer than 128, and the entries of
-- the numbers that only the ring knows are free: what Fill_form1 makes of the ring, without an
-- exit, tells what they or the daemon have, and the daemon is the last of its transitional members.
pub merge_ring-IsTold :
    (have : ℕ → Bool) (r : RingInfo) (d : Daemon)
    → IsTold have r
    → contains (take r.num_trans r.procs) d.my.id ≡ false
    → r.num_trans < max_procs_ring
    → ((q : ℕ) → d.highest_seq < q → q ≤ r.highest_seq → d.exist (pack_entry q) ≡ 0)
    → (own : RingInfo) × (merge_ring r d ≡ some own)
      × IsTold (λ q. have q || has_packet d.store q) own
      × (take own.num_trans own.procs ≡ take r.num_trans r.procs ++ (d.my.id ∷ []))
unfolding merge_ring
merge_ring-IsTold have r d v new few clear =
    let ids = take r.num_trans r.procs ++ (d.my.id ∷ []) in
    let behind = drop r.num_trans r.procs in
    let commit = take d.commit_set.num_members d.commit_set.members in
    let trans = new_trans r d.my.id in
    let (u, same, count) = trans_set r d.my.id v.trans v.long new few in
    let (w, f) = insert_all_refines behind trans u in
    let (x, g) = insert_all_refines commit (insert_all behind trans) w in
    let (ys, h) = add_all-front behind ids in
    let (zs, k) = add_all-front commit (ids ++ ys) in
    let all = insert_all commit (insert_all behind trans) in
    let procs : active all ≡ ids ++ (ys ++ zs) =
      g
      ∙ ap (λ l. add_all l commit) (f ∙ ap (λ l. add_all l behind) same ∙ h)
      ∙ k
      ∙ append_append ids ys zs in
    let size : length ids ≡ suc r.num_trans = omega (
      arith,
      length-append (take r.num_trans r.procs) (d.my.id ∷ []),
      length-take r.num_trans r.procs v.long,
    ) in
    let front : take (suc r.num_trans) (active all) ≡ ids =
      ap (λ l. take (suc r.num_trans) l) procs
      ∙ subst (λ n. take n (ids ++ (ys ++ zs)) ≡ ids) size (take-front ids (ys ++ zs)) in
    let fits : (trans.num_members == suc r.num_trans) ≡ true =
      rw count (==_refl (suc r.num_trans)) in
    (
      merged r d,
      rw fits refl,
      record {
        told = λ q l m.
            contains-shared_holes d.exist d.highest_seq r q
            ∙ ground (arith, l, m, v.told q, v.top q, clear q);
        top = λ q l. ground (arith, l, v.top q);
        trans =
            subst (λ l. IsDistinct l) (sym front)
              (IsDistinct-append (take r.num_trans r.procs) d.my.id v.trans new);
        long = omega (arith, size, ap length procs, length-append ids (ys ++ zs));
      },
      front,
    )
