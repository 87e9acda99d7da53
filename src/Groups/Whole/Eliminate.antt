-- ===== src/Groups/Whole/Eliminate.antt =====
-- daemon/groups.c: the partitioned daemons of a group are eliminated.
use mathlib.Core.List.{Permᴰ}
use mathlib.Core.Bool.{true≢false}
use mathlib.Core.List.Permᴰ as PermD
use in5020_distribuerte_syst.Prelude.{
  ◌≡◌, ◌≢◌, refl, sym, ◌∙◌, Bool, true, false, List, [], ◌∷◌, ◌++◌, some, >>=-some, if-true,
  if-false, arith, All, All-perm, Bool-cases, inl, inr,
}
use in5020_distribuerte_syst.Conf.{Configuration}
use in5020_distribuerte_syst.Groups.{Group, DaemonMembers, Env, gtrans, is_partitioned_daemon}
use in5020_distribuerte_syst.Groups.Memberships.{eliminate_from}
use in5020_distribuerte_syst.Groups.Whole.{IsWhole, local_members, perm-HasDaemon}
use in5020_distribuerte_syst.Groups.Whole.Extract.{remove_daemon-IsRemoved}

abbrev pub IsEstablished : DaemonMembers → Type 0
IsEstablished d = is_partitioned_daemon d ≡ false

-- The own daemon is not partitioned.
abbrev pub IsHere : Env → DaemonMembers → Type 0
IsHere e d = d.proc_id ≡ e.my.id → IsEstablished d

-- A group without its partitioned daemons.
pub record IsEliminated (e : Env) (g g' : Group) : Type 0 where
  pub whole : IsWhole e g'
  pub established : All IsEstablished g'.daemons
  pub same_name : g'.name ≡ g.name

pub eliminate_from-Returns :
    (e : Env) (memb : Configuration) (ds done : List DaemonMembers) (g : Group) (b : Bool)
    → IsWhole e g
    → Permᴰ g.daemons (ds ++ done)
    → All IsEstablished done
    → All (IsHere e) ds
    → (r : Group × Bool) × (eliminate_from e gtrans memb ds (g, b) ≡ some r) × IsEliminated e g r.0
eliminate_from-Returns e memb [] done g b w p a k = (
  (g, b),
  refl,
  record { whole = w; established = All-perm IsEstablished (PermD.symm p) a; same_name = refl },
)
eliminate_from-Returns e memb (d ∷ ds) done g b w p a k =
    elim (Bool-cases (is_partitioned_daemon d)) [
      | inl part ↦
          let h = perm-HasDaemon e g w d (ds ++ done) p in
          let (g', q, v) =
            remove_daemon-IsRemoved e g d (ds ++ done) h
              (none_local λ mine. true≢false (sym part ∙ k.0 mine)) in
          let (r, q', x) = eliminate_from-Returns e memb ds done g' true v.whole v.others a k.1 in
          (
            r,
            if-true _ _ _ _ part (>>=-some _ _ g' _ q q'),
            record {
              whole = x.whole;
              established = x.established;
              same_name = x.same_name ∙ v.same_name;
            },
          )
      | inr est ↦
          let (r, q, x) =
            eliminate_from-Returns e memb ds (d ∷ done) g b w
              (Permᴰ.trans p (PermD.symm (PermD.middle d ds done))) (est, a) k.1 in
          (r, if-false _ _ _ _ est q, x)
    ]
  where
    none_local : d.proc_id ≢ e.my.id → local_members e d ≡ []
    none_local ne = ground arith
