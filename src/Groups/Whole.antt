-- ===== src/Groups/Whole.antt =====
-- daemon/groups.c: what a group keeps to, and a daemon of it taken apart from the others.
pub mod Join
pub mod Daemon
pub mod Mailboxes
pub mod Extract
pub mod Departure
pub mod Leaving
pub mod Leave
pub mod Eliminate
pub mod Cut
pub mod Kill
pub mod Restart
use mathlib.Core.List.{Perm, Permᴰ}
use mathlib.Core.List.Perm
use mathlib.Core.List.Permᴰ as PermD
use in5020_distribuerte_syst.Prelude.{
  ℕ, ◌+◌, ◌<◌, ◌≡◌, ◌≢◌, refl, sym, ap, ◌∙◌, subst, Bool, true, false, ◌==◌, if◌then◌else◌, List,
  [], ◌∷◌, ◌++◌, map, Option, none, some, length, arith, All, All-perm, All-imp, map_fixed, Apart,
  Apart-perm, sum, sum-perm, gather, gather-perm, ==_refl, Option-cases, inl, inr,
}
use in5020_distribuerte_syst.Groups.{
  Name, Group, DaemonMembers, Env, Notice, Skiplist, is_partitioned_daemon, write_daemon,
  get_daemon, IsListed, AllListed,
}
use in5020_distribuerte_syst.Groups.Listed.{get_daemon-none}
use in5020_distribuerte_syst.Groups.Names.{names_of}
use in5020_distribuerte_syst.Groups.Handlers.{if_any}

abbrev pub id_of : DaemonMembers → ℕ
id_of d = d.proc_id

abbrev pub itself : Name → Name
itself n = n

abbrev pub size_of : DaemonMembers → ℕ
size_of d = length d.members

-- The mailbox of a local member.
abbrev pub box : Env → Name → Option ℕ
box e n = e.mbox_of (names_of e n).0

abbrev pub local_members : Env → DaemonMembers → List Name
local_members e d = if d.proc_id == e.my.id then d.members else []

-- At least one member, and no two of the same name.
abbrev pub IsFull : DaemonMembers → Type 0
IsFull d = (0 < length d.members) × Apart itself d.members

abbrev pub IsMarked : Bool → DaemonMembers → Type 0
IsMarked changed d = is_partitioned_daemon d ≡ true → changed ≡ true

-- The daemons are different, each full; the count is that of the members; the mailboxes are those of
-- the local members; the group is changed where a daemon is partitioned; and the configuration finds
-- each daemon.
pub record IsWhole (e : Env) (g : Group) : Type 0 where
  pub apart : Apart id_of g.daemons
  pub full : All IsFull g.daemons
  pub count : g.num_members ≡ sum size_of g.daemons
  pub boxes : Perm (map some g.mboxes) (map (box e) (gather (local_members e) g.daemons))
  pub marked : All (IsMarked g.changed) g.daemons
  pub listed : AllListed e.table g.daemons

-- The same of a group with the daemon `d`, which may be empty, besides `rest`.
pub record HasDaemon (e : Env) (g : Group) (d : DaemonMembers) (rest : List DaemonMembers)
    : Type 0 where
  pub perm : Permᴰ g.daemons (d ∷ rest)
  pub apart : Apart id_of (d ∷ rest)
  pub names : Apart itself d.members
  pub full : All IsFull rest
  pub count : g.num_members ≡ length d.members + sum size_of rest
  pub boxes :
      Perm (map some g.mboxes) (map (box e) (local_members e d ++ gather (local_members e) rest))
  pub marked : All (IsMarked g.changed) rest
  pub listed : AllListed e.table (d ∷ rest)

module _ (e : Env) (g : Group) (w : IsWhole e g) where
  -- One of its daemons.
  pub perm-HasDaemon :
      (d : DaemonMembers) (rest : List DaemonMembers)
      → Permᴰ g.daemons (d ∷ rest)
      → HasDaemon e g d rest
  perm-HasDaemon d rest p = record {
    perm = p;
    apart = Apart-perm id_of p w.apart;
    names = ((All-perm IsFull p w.full).0).1;
    full = (All-perm IsFull p w.full).1;
    count = w.count ∙ sum-perm size_of p;
    boxes = Perm.trans w.boxes ∣ PermD.map (box e) (gather-perm (local_members e) p) ∣₁;
    marked = (All-perm (IsMarked g.changed) p w.marked).1;
    listed = All-perm _ p w.listed;
  }

  -- A daemon that is found.
  pub found-HasDaemon :
      (id : ℕ) (d : DaemonMembers)
      → get_daemon e g id ≡ some (some d)
      → (rest : List DaemonMembers) × HasDaemon e g d rest
  found-HasDaemon id d f =
      let (same, rest, p) = e.daemons_list.find-some g.daemons id d f in
      (rest, perm-HasDaemon d rest p)

  -- A daemon that is added, with no member yet.
  pub added-HasDaemon :
      (d : DaemonMembers) (ds : List DaemonMembers)
      → IsListed e.table d.proc_id
      → get_daemon e g d.proc_id ≡ some none
      → Permᴰ ds (d ∷ g.daemons)
      → d.members ≡ []
      → HasDaemon e (record g { daemons = ds }) d g.daemons
  added-HasDaemon d ds k f p empty = record {
    perm = p;
    apart = (
      All-imp (λ c ne e'. ne (sym e')) g.daemons (get_daemon-none e g d.proc_id w.listed k f),
      w.apart,
    );
    names = subst (Apart itself) (sym empty) tt;
    full = w.full;
    count = rw empty (omega (arith, w.count));
    boxes = rw (none_local empty) w.boxes;
    marked = w.marked;
    listed = (k, w.listed);
  }
    where
      none_local : d.members ≡ [] → local_members e d ≡ []
      none_local h = ground arith

-- A daemon that is written back under the same id.
pub write-perm :
    (d c : DaemonMembers) (ds rest : List DaemonMembers)
    → Permᴰ ds (d ∷ rest)
    → Apart id_of (d ∷ rest)
    → d.proc_id ≡ c.proc_id
    → Permᴰ (write_daemon c ds) (c ∷ rest)
write-perm d c ds rest p a same =
    Permᴰ.trans (PermD.map (λ b. if b.proc_id == c.proc_id then c else b) p)
      (Permᴰ.cons here (subst (Permᴰ _) others (PermD.refl _)))
  where
    here : (if d.proc_id == c.proc_id then c else d) ≡ c
    here = ground arith

    other :
        (b : DaemonMembers) → d.proc_id ≢ b.proc_id → (if b.proc_id == c.proc_id then c else b) ≡ b
    other b ne = ground arith

    others : map (λ b. if b.proc_id == c.proc_id then c else b) rest ≡ rest
    others = map_fixed _ rest (All-imp other rest a.0)

-- A daemon that is full, and marked where it is partitioned, is one of a whole group.
pub IsWhole-HasDaemon :
    (e : Env) (g : Group) (d : DaemonMembers) (rest : List DaemonMembers)
    → HasDaemon e g d rest
    → IsFull d
    → IsMarked g.changed d
    → IsWhole e g
IsWhole-HasDaemon e g d rest h f m =
    let p = PermD.symm h.perm in
    record {
      apart = Apart-perm id_of p h.apart;
      full = All-perm IsFull p (f, h.full);
      count = h.count ∙ sum-perm size_of p;
      boxes = Perm.trans h.boxes ∣ PermD.map (box e) (gather-perm (local_members e) p) ∣₁;
      marked = All-perm (IsMarked g.changed) p (m, h.marked);
      listed = All-perm _ p h.listed;
    }

-- A group whose daemon was exchanged for one with the same id is whole again.
pub exchange-IsWhole :
    (e : Env) (g g' : Group) (d c : DaemonMembers) (rest : List DaemonMembers)
    → HasDaemon e g d rest
    → d.proc_id ≡ c.proc_id
    → g'.daemons ≡ write_daemon c g.daemons
    → IsFull c
    → g'.num_members ≡ length c.members + sum size_of rest
    → Perm (map some g'.mboxes) (map (box e) (local_members e c ++ gather (local_members e) rest))
    → All (IsMarked g'.changed) (c ∷ rest)
    → IsWhole e g'
exchange-IsWhole e g g' d c rest h same ds f n b m =
    let p : Permᴰ (c ∷ rest) g'.daemons = PermD.symm (
      subst (λ l. Permᴰ l (c ∷ rest)) (sym ds)
        (write-perm d c g.daemons rest h.perm h.apart same)) in
    record {
      apart =
          Apart-perm id_of p (subst (λ k. All (λ y. k ≢ id_of y) rest) same h.apart.0, h.apart.1);
      full = All-perm IsFull p (f, h.full);
      count = n ∙ sum-perm size_of p;
      boxes = Perm.trans b ∣ PermD.map (box e) (gather-perm (local_members e) p) ∣₁;
      marked = All-perm (IsMarked g'.changed) p m;
      listed = All-perm _ p (subst (IsListed e.table) same h.listed.0, h.listed.1);
    }

pub if_any-Returns :
    (ms : List ℕ) (t : Option (List (ℕ × Notice)))
    → ((u : List (ℕ × Notice)) × (t ≡ some u))
    → (u : List (ℕ × Notice)) × (if_any ms t ≡ some u)
if_any-Returns [] t p = ([], refl)
if_any-Returns (m ∷ ms) t p = p
