-- ===== src/Tests/Startup.antt =====
-- The configuration and the console, with a gateway that has one device.
use rf_gateway.Base.{
  ℕ, refl, true, false, none, some, List, [], ◌∷◌, arith, replicate, span, codes, Returns, Points,
  write, starts_with,
}
use rf_gateway.HashMap.Bulk.Create.{empty_map, empty_map-IsMap}
use rf_gateway.Rf.{Rf, Device}
use rf_gateway.Rf.Enqueue.Devices.{DeviceAdded}
use rf_gateway.Rf.Life.{Kernel}
use rf_gateway.Config.{Walk, Grant, Key, blank_device, walk}
use rf_gateway.Config.Tokens.{Token, Kind, same_text}
use rf_gateway.Config.Settings.{pair, other, TextAt, PassedAt}
use rf_gateway.Config.Object.{Spells, at_end, at_key, at_other, device_after}
use rf_gateway.Config.Last.{readied, ready_at, walk-LastDevice}
use rf_gateway.Gateway.{App, Boot, with_udp}
use rf_gateway.Gateway.{main}
use rf_gateway.Gateway.Refused.{Unstarted, main-Unstarted}
use rf_gateway.Gateway.Finished.{Finished, with_udp-Finished}
use rf_gateway.Tests.Life.{busy, queued-Owned}
use rf_gateway.Tests.Radio.{world, pairs, map-IsMap}

abbrev config : List ℕ
config = codes "{\"devices\":[{\"id\":5,\"name\":\"x\"}]}"

abbrev token : Kind → ℕ → ℕ → ℕ → Token
token kind start end size = record { kind = kind; start = start; end = end; size = size }

abbrev tokens : List Token
tokens =
    token Kind.object 0 34 1
    ∷ token Kind.string 2 9 1
    ∷ token Kind.array 11 33 1
    ∷ token Kind.object 12 32 2
    ∷ token Kind.string 14 16 1
    ∷ token Kind.primitive 18 19 0
    ∷ token Kind.string 21 25 1
    ∷ token Kind.string 28 29 0
    ∷ []

id_at : TextAt config tokens 4 (codes "id")
unfolding span
id_at = record {
  token = token Kind.string 14 16 1;
  here = refl;
  ends = refl;
  inside = omega arith;
  bytes = refl;
}

five_at : TextAt config tokens 5 (codes "5")
unfolding span
five_at = record {
  token = token Kind.primitive 18 19 0;
  here = refl;
  ends = refl;
  inside = omega arith;
  bytes = refl;
}

name_at : PassedAt config tokens 6
unfolding span same_text
name_at = record {
  text = codes "name";
  at = record {
    token = token Kind.string 21 25 1;
    here = refl;
    ends = refl;
    inside = omega arith;
    bytes = refl;
  };
  no_object = refl;
  unknown = λ _. refl;
}

x_at : PassedAt config tokens 7
unfolding span same_text
x_at = record {
  text = codes "x";
  at = record {
    token = token Kind.string 28 29 0;
    here = refl;
    ends = refl;
    inside = omega arith;
    bytes = refl;
  };
  no_object = refl;
  unknown = λ _. refl;
}

spelt : Spells (λ t. some t) config tokens 4 (pair Key.id (codes "5") ∷ other ∷ other ∷ [])
unfolding id_at
spelt = at_key id_at refl five_at tt (at_other name_at (at_other x_at (at_end refl)))

abbrev grant : Grant
grant = record { device = 600; queue = 601; entry = 602; table = true }

abbrev reading : Walk
reading = record {
  version = 1;
  ingw = 0;
  indev = 1;
  rd = some 600;
  interface = replicate 16 0;
  grants = grant ∷ [];
}

abbrev empty : Rf
empty = record world {
  map = empty_map;
  entries = λ a. none;
  devices = write world.devices 600 (some blank_device);
}

blank_at : Points empty.devices 600 blank_device
unfolding write
blank_at = record { ne_null = omega arith; holds = refl }

abbrev numbered : Device
numbered = device_after (λ t. some t) (pair Key.id (codes "5") ∷ other ∷ other ∷ []) blank_device

walk-LastDevice_example :
    Returns
      (λ w' st'.
        DeviceAdded
          (ready_at
            (record empty { devices = write empty.devices 600 (some numbered) })
            grant
            600
            numbered)
          []
          602
          600
          (readied grant numbered)
          0
          st')
      (walk (λ t. some t) true 200 config tokens 9 4 reading empty)
walk-LastDevice_example =
    walk-LastDevice (λ t. some t) 200 config tokens 4 reading empty 600 blank_device spelt refl refl
      refl (empty_map-IsMap (λ a. none)) blank_at (λ _. refl) (λ hit. cc)

abbrev kernel : Kernel
kernel = record {
  fd = some 3;
  has_index = true;
  is_up = some true;
  takes_addr = λ bytes. true;
  takes_flags = true;
  binds = true;
}

abbrev boot : Boot
boot = record {
  argc = 2;
  map = 1;
  map_room = true;
  file = some config;
  file_room = true;
  key_room = true;
  interface = replicate 16 0;
  gw = 200;
  grants = grant ∷ [];
  kernel = kernel;
  udp_socket = some 4;
  udp_binds = true;
  ws_socket = some 5;
  ws_binds = true;
  ws_listens = true;
  iterator = 500;
  line = [];
}

abbrev app : App
app = record {
  run = false;
  rf = busy;
  udp = record { sock = none; run = false };
  ws = record { sock = none; run = false; closed = [] };
  started = [];
  closed = [];
}

with_udp-Finished_example :
    Returns
      (Finished boot app pairs ((400, 300) ∷ []) true true)
      (with_udp boot (some (codes "help\n") ∷ none ∷ some (codes "quit\n") ∷ []) app)
unfolding starts_with
with_udp-Finished_example =
    with_udp-Finished boot busy (omega arith) map-IsMap queued-Owned
      (some (codes "help\n") ∷ none ∷ some (codes "quit\n") ∷ []) app refl (λ _. refl)

-- A file that cannot be opened.
abbrev unreadable : Boot
unreadable = record boot { file = none }

main-Unstarted_example : Returns (Unstarted app 1) (main (λ t. []) (λ t. some t) unreadable [] app)
main-Unstarted_example = main-Unstarted (λ t. []) (λ t. some t) unreadable [] (omega arith) app refl
