-- ===== src/Tests/Conf.antt =====
-- The lookups of daemon/configuration.c on a configuration of two segments.
use in5020_distribuerte_syst.Prelude.{ℕ, ◌≡◌, refl, ◌↔◌, List, [], ◌∷◌, none, some, length}
use in5020_distribuerte_syst.Conf.{
  Proc, Segment, Configuration, proc_by_id, id_in_conf, num_procs, leader, last, first_id, last_id,
}
use in5020_distribuerte_syst.Conf.Members.{members, view_of_members}

abbrev pub machine : ℕ → ℕ → ℕ → Proc
machine id seg index = record {
  name = [];
  port = 4803;
  seg_index = seg;
  index_in_seg = index;
  id = id;
  ifc = record { ip = id; port = 4803; kind = 0 } ∷ [];
}

abbrev pub table : List Proc
table = machine 11 0 0 ∷ machine 12 0 1 ∷ machine 21 1 0 ∷ []

abbrev pub segment : List Proc → Segment
segment ps = record { bcast_address = 255; port = 4803; procs = ps }

abbrev pub network : Configuration
network = record {
  hash_code = 7;
  segments = segment (machine 11 0 0 ∷ machine 12 0 1 ∷ []) ∷ segment (machine 21 1 0 ∷ []) ∷ [];
}

last_machine : last network ≡ some 21
unfolding last
last_machine = refl

found_second : proc_by_id table 12 ≡ some (1, machine 12 0 1)
unfolding proc_by_id
found_second = refl

located_second : id_in_conf network 21 ≡ some 1
unfolding id_in_conf
located_second = refl

view_of_members_example :
    (num_procs network ≡ length (members network))
    × (leader network ≡ first_id (members network))
    × (last network ≡ last_id (members network))
    × ((leader network ≡ none) ↔ (members network ≡ []))
view_of_members_example = view_of_members network
