-- ===== src/Tests/Devices.antt =====
-- A configuration of two devices.
use rf_gateway.Base.{
  ℕ, ◌≡◌, refl, true, none, some, List, [], ◌∷◌, arith, replicate, span, codes, pure, ◌>>◌,
  and_then, store, null,
}
use rf_gateway.Rf.{in_devices}
use rf_gateway.Config.{Walk, Grant, Key, blank_device, walk}
use rf_gateway.Config.Tokens.{Token, Kind}
use rf_gateway.Config.Settings.{Setting, pair, TextAt}
use rf_gateway.Config.Object.{at_end, at_key}
use rf_gateway.Config.Devices.{here, at_key as lead_key, ObjectAt}
use rf_gateway.Config.Enrol.{enrol}
use rf_gateway.Config.ObjectList.{Objects, last_object, object}
use rf_gateway.Config.Enrolled.{walk-enrolled}
use rf_gateway.Tests.Radio.{world}

abbrev config : List ℕ
config = codes "{\"devices\":[{\"id\":5},{\"id\":7}]}"

abbrev token : Kind → ℕ → ℕ → ℕ → Token
token kind start end size = record { kind = kind; start = start; end = end; size = size }

abbrev tokens : List Token
tokens =
    token Kind.object 0 31 1
    ∷ token Kind.string 2 9 1
    ∷ token Kind.array 11 30 2
    ∷ token Kind.object 12 20 1
    ∷ token Kind.string 14 16 1
    ∷ token Kind.primitive 18 19 0
    ∷ token Kind.object 21 29 1
    ∷ token Kind.string 23 25 1
    ∷ token Kind.primitive 27 28 0
    ∷ []

devices_at : TextAt config tokens 1 (codes "devices")
unfolding span
devices_at = record {
  token = token Kind.string 2 9 1;
  here = refl;
  ends = refl;
  inside = omega arith;
  bytes = refl;
}

first_id : TextAt config tokens 4 (codes "id")
unfolding span
first_id = record {
  token = token Kind.string 14 16 1;
  here = refl;
  ends = refl;
  inside = omega arith;
  bytes = refl;
}

five_at : TextAt config tokens 5 (codes "5")
unfolding span
five_at = record {
  token = token Kind.primitive 18 19 0;
  here = refl;
  ends = refl;
  inside = omega arith;
  bytes = refl;
}

second_id : TextAt config tokens 7 (codes "id")
unfolding span
second_id = record {
  token = token Kind.string 23 25 1;
  here = refl;
  ends = refl;
  inside = omega arith;
  bytes = refl;
}

seven_at : TextAt config tokens 8 (codes "7")
unfolding span
seven_at = record {
  token = token Kind.primitive 27 28 0;
  here = refl;
  ends = refl;
  inside = omega arith;
  bytes = refl;
}

second_object : ObjectAt tokens 6
second_object = record { token = token Kind.object 21 29 1; here = refl; is_one = refl }

abbrev settings : List (List Setting)
settings = (pair Key.id (codes "5") ∷ []) ∷ (pair Key.id (codes "7") ∷ []) ∷ []

both : Objects (λ t. some t) config tokens 4 settings
unfolding first_id second_id
both =
    object (lead_key first_id refl five_at tt (here refl)) second_object
      (last_object (at_key second_id refl seven_at tt (at_end refl)))

abbrev no_grant : Grant
no_grant = record { device = null; queue = null; entry = null; table = true }

abbrev first_grant : Grant
first_grant = record { device = 600; queue = 601; entry = 602; table = true }

abbrev second_grant : Grant
second_grant = record { device = 610; queue = 611; entry = 612; table = true }

abbrev begun : Walk
begun = record {
  version = 0;
  ingw = 0;
  indev = 0;
  rd = none;
  interface = replicate 16 0;
  grants = no_grant ∷ first_grant ∷ second_grant ∷ [];
}

walk-enrolled_example :
    and_then (walk (λ t. some t) true 200 config tokens 10 1 begun world) (λ _. pure tt)
    ≡ (in_devices (store 600 (some blank_device))
          >> enrol (λ t. some t) first_grant 600 blank_device (second_grant ∷ []) settings)
        world
unfolding devices_at
walk-enrolled_example =
    walk-enrolled (λ t. some t) 200 config tokens 1 begun world 10 devices_at refl
      (token Kind.array 11 30 2) refl refl both (omega arith) refl (omega arith) refl
      (omega arith, (omega arith, tt))
