-- ===== src/Tests/Life.antt =====
-- `rfOpen`, `rfDeInit` and `rfSendPacket` with a device that has a packet in its queue.
use rf_gateway.Base.{refl, true, false, none, some, [], ◌∷◌, arith, null, Returns, Points, write}
use rf_gateway.Links.{nil, cons}
use rf_gateway.LinkedList.{empty, handle, lnode}
use rf_gateway.LinkedList.Valid.{IsList}
use rf_gateway.Rf.{Rf, Device}
use rf_gateway.Rf.Life.Start.{Started, init-Started}
use rf_gateway.Rf.Life.{init, Kernel, open_radio, de_init}
use rf_gateway.Rf.Life.Open.{Opened, open_radio-Opened}
use rf_gateway.Rf.Life.Free.{Owned, no_device, device, Ended, de_init-Ended}
use rf_gateway.Rf.Resend.{send_packet, EndsWell, send_packet-endless}
use rf_gateway.Tests.Radio.{mirror, key, gateway, world, pairs, map-IsMap, gateway_at}

abbrev pub queued : Device
queued = record {
  addr = 6;
  sn = 5;
  key = key;
  iv = key;
  ctr = 0;
  packet_queue = some (handle 400 400 1);
}

abbrev pub busy : Rf
busy = record world {
  nodes = write (λ a. none) 400 (some (lnode 300 null null));
  devices = write world.devices 201 (some queued);
}

pub queue-IsList : IsList busy.nodes (handle 400 400 1) ((400, 300) ∷ [])
unfolding write
queue-IsList = record {
  chain = cons (record { ne_null = omega arith; holds = refl }) refl nil;
  counted = refl;
}

pub queued_at : Points busy.devices 201 queued
unfolding write
queued_at = record { ne_null = omega arith; holds = refl }

pub queued-Owned : Owned busy.devices busy.nodes pairs ((400, 300) ∷ [])
queued-Owned = device queued_at refl refl queue-IsList (λ a i. cc) no_device

de_init-Ended_example : Returns (Ended busy pairs ((400, 300) ∷ [])) (de_init 500 busy)
de_init-Ended_example = de_init-Ended 500 busy (omega arith) map-IsMap queued-Owned

-- The interface is down and refuses the link address.
abbrev refusing : Kernel
refusing = record {
  fd = some 3;
  has_index = true;
  is_up = some false;
  takes_addr = λ bytes. false;
  takes_flags = true;
  binds = true;
}

open_radio-Opened_example :
    Returns (Opened world refusing 200 gateway) (open_radio refusing 200 world)
open_radio-Opened_example = open_radio-Opened world refusing 200 gateway gateway_at

send_packet-endless_example : ¬ EndsWell (send_packet mirror (λ k. some k) 7 201 busy)
unfolding empty
send_packet-endless_example =
    send_packet-endless mirror (λ k. some k) 7 201 busy queued (handle 400 400 1) queued_at refl
      refl

init-Started_example : Returns (Started world true) (init 600 true world)
init-Started_example = init-Started 600 true world
