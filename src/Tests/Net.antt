-- ===== src/Tests/Net.antt =====
-- daemon/network.c: datagrams of small packets.
use in5020_distribuerte_syst.Prelude.{◌+◌, ◌≤◌, ◌≡◌, refl, length, [], ◌∷◌, ◌++◌, some, arith}
use in5020_distribuerte_syst.Prot.Store.{Net}
use in5020_distribuerte_syst.Prot.Net.{queue_bcast}
use in5020_distribuerte_syst.Prot.Net.Layout.{size, layout, packets_in}
use in5020_distribuerte_syst.Prot.Receive.Datagram.{AllFull, read_back}
use in5020_distribuerte_syst.Prot.Net.Packed.{
  AllReadable, read_back-queued, IsPacked, all_packets, queue_bcast-IsPacked,
}
use in5020_distribuerte_syst.Tests.Memb.{first_header}
use in5020_distribuerte_syst.Tests.Prot.{two_packets}

empty-IsPacked : IsPacked two_packets.net
unfolding size layout packets_in AllFull AllReadable
empty-IsPacked = record {
  small = omega arith;
  few = omega arith;
  array = omega arith;
  bytes = refl;
  laid = refl;
  full = tt;
  readable = tt;
}

queue_bcast-IsPacked_example :
    IsPacked (queue_bcast first_header 7 two_packets.net).1
    × (all_packets (queue_bcast first_header 7 two_packets.net).1
        ≡ all_packets two_packets.net ++ ((first_header, 7) ∷ []))
queue_bcast-IsPacked_example =
    queue_bcast-IsPacked first_header 7 two_packets.net (omega arith) (omega arith) empty-IsPacked

-- A datagram of two packets, with padding between them.
pub two_queued : Net
two_queued = (queue_bcast first_header 8 (queue_bcast first_header 7 two_packets.net).1).1

two_queued-IsPacked : IsPacked two_queued
unfolding two_queued
two_queued-IsPacked =
    (queue_bcast-IsPacked first_header 8 (queue_bcast first_header 7 two_packets.net).1
      (omega arith) (omega arith)
      (queue_bcast-IsPacked first_header 7 two_packets.net (omega arith) (omega arith)
        empty-IsPacked).0).0

two_queued-bytes : two_queued.queued_bytes ≡ 94
unfolding two_queued queue_bcast
two_queued-bytes = refl

read_back-queued_example :
    (read_back two_queued.queued ≡ some (packets_in two_queued.queued))
    × (length (packets_in two_queued.queued) + length (packets_in two_queued.queued)
        ≤ two_queued.scatter_size)
read_back-queued_example =
    read_back-queued two_queued two_queued-IsPacked
      (λ z. absurd (omega (arith, z, two_queued-bytes)))
