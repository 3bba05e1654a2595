-- ===== src/Tests/Datagrams.antt =====
-- Rounds of `udpListener` in the world of one device.
use rf_gateway.Base.{
  ℕ, ◌≡◌, refl, none, some, List, [], ◌∷◌, arith, ok, get_or, replicate, word32, splice, write,
}
use rf_gateway.Rf.Air.{frame_of}
use rf_gateway.Rf.Enqueue.Known.{dev_of, counted_up, tx_of}
use rf_gateway.Rf.Enqueue.Lost.{addressed}
use rf_gateway.Udp.{received_packet, listen_round}
use rf_gateway.Udp.Listen.{listen_round-known, listen_round-unknown}
use rf_gateway.Tests.Radio.{
  mirror, mirror_block, key, gateway, meter, world, pairs, map-IsMap, gateway_at, meter_at,
  reverse_onto,
}

abbrev order : List ℕ
order = 6 ∷ 0 ∷ 0 ∷ 0 ∷ 0 ∷ 0 ∷ 0 ∷ 0 ∷ 0x80 ∷ 0 ∷ 0 ∷ 2 ∷ 2 ∷ 21 ∷ 22 ∷ []

for_meter : word32 (received_packet 4 order).bytes 0 ≡ 6
unfolding splice
for_meter = refl

two_bytes : get_or (received_packet 4 order).bytes 12 0 ≡ 2
unfolding splice
two_bytes = refl

listen_round-known_example :
    listen_round mirror (some 77) (replicate 256 0) 4 301 (some order) world
    ≡ ok tt (record world {
      devices =
          write world.devices (dev_of (received_packet 4 order) pairs) (some (counted_up meter));
      packets = write world.packets 301 none;
      sent =
          frame_of
            (λ block. reverse_onto block [])
            (some 77)
            (tx_of gateway meter (received_packet 4 order) (replicate 256 0))
          ∷ [];
    })
listen_round-known_example =
    listen_round-known mirror (some 77) (replicate 256 0) 4 301 world (omega arith) order gateway
      gateway_at map-IsMap meter (rw for_meter meter_at) (rw for_meter (omega arith)) refl
      (omega arith) (omega (arith, two_bytes)) (mirror_block key key)

abbrev misaddressed : List ℕ
misaddressed = 8 ∷ 0 ∷ 0 ∷ 0 ∷ []

for_nobody : word32 (received_packet 4 misaddressed).bytes 0 ≡ 8
unfolding splice
for_nobody = refl

listen_round-unknown_example :
    listen_round mirror (some 77) (replicate 256 0) 4 301 (some misaddressed) world
    ≡ ok tt (record world {
      packets = write world.packets 301 (
          some (record (received_packet 4 misaddressed) {
            bytes = addressed gateway (received_packet 4 misaddressed);
          }));
    })
listen_round-unknown_example =
    listen_round-unknown mirror (some 77) (replicate 256 0) 4 301 world (omega arith) misaddressed
      gateway gateway_at map-IsMap (rw for_nobody refl)
