-- ===== src/Config/Enrol.antt =====
-- The walk of config.c over the list of devices, against the calls of `rfAddDevice` that it is to make.
use rf_gateway.Base.{
  ℕ, suc, ◌+◌, ◌≤◌, ◌≡◌, ◌≢◌, refl, Option, some, List, [], ◌∷◌, arith, ne→==-false, if◌then◌else◌,
  Run, ok, fault, out_of_fuel, Cmd, pure, ◌>>◌, and_then, Ptr, null, Points, Points-write,
  modify-ok, store, write, write-write, u8,
}
use rf_gateway.Rf.{Rf, Device, in_devices}
use rf_gateway.Rf.Enqueue.{add_device}
use rf_gateway.Config.{
  Walk, Grant, next_grant, later_grants, blank_device, flush, change, add_at, alloc_device,
}
use rf_gateway.Config.Settings.{Setting}
use rf_gateway.Config.Object.{device_after, last_other}
use rf_gateway.Config.Last.{readied}

-- A device with its settings, counter 0 and a queue of its own is given to `rfAddDevice`.
abbrev pub enrol_one : Grant → Ptr → Device → Cmd Rf (Unit {0})
enrol_one g p d =
    in_devices (store p (some (readied g d))) >> (add_device g.entry g.table p >> pure tt)

-- The devices in order, each in a block of its own. The last is given away only if its last token is
-- no part of a known pair.
abbrev pub enrol :
    (decode : List ℕ → Option (List ℕ))
    → Grant
    → Ptr
    → Device
    → List Grant
    → List (List Setting)
    → Cmd Rf (Unit {0})
enrol decode g p d gs [] = pure tt
enrol decode g p d gs (ss ∷ []) =
    let named = device_after decode ss d in
    if last_other ss then enrol_one g p named else in_devices (store p (some named))
enrol decode g p d gs (ss ∷ ts ∷ more) =
    enrol_one g p (device_after decode ss d)
    >> (in_devices (store (next_grant gs).device (some blank_device))
        >> enrol decode (next_grant gs) (next_grant gs).device blank_device (later_grants gs)
            (ts ∷ more))

-- What `flush` does behind a call whose result it drops.
ends_there :
    {A : Type 0} (w : Walk) (r : Run Rf A)
    → and_then (and_then (and_then r (λ _. pure tt)) (λ _. pure w)) (λ _. pure tt)
      ≡ and_then r (λ _. pure tt)
ends_there w (ok a st) = refl
ends_there w fault = refl
ends_there w out_of_fuel = refl

goes_further :
    {A B : Type 0} (w : Walk) (r : Run Rf A) (change : Rf → Rf) (next : Walk → Cmd Rf B)
    → and_then (and_then (and_then r (λ _. pure tt)) (λ _ s. ok w (change s))) next
      ≡ and_then (and_then r (λ _. pure tt)) (λ _ s. next w (change s))
goes_further w (ok a st) change next = refl
goes_further w fault change next = refl
goes_further w out_of_fuel change next = refl

module _ (w : Walk) (st : Rf) (p : Ptr) (d : Device) (rd : w.rd ≡ some p)
    (pd : Points st.devices p d) where
  abbrev g : Grant
  g = next_grant w.grants

  pub flush-enrol_one :
      w.indev ≡ 1 → and_then (flush w st) (λ _. pure tt) ≡ enrol_one (next_grant w.grants) p d st
  unfolding flush change in_devices add_at
  flush-enrol_one one_left =
      let counted : Device = record d { ctr = 0 } in
      rw
        (
          rd,
          modify-ok pd,
          modify-ok (Points-write st.devices counted pd.ne_null),
          write-write st.devices p (some counted) (some (readied (next_grant w.grants) d)),
          one_left,
        )
        (ends_there _ (add_device _ _ p _))

  pub flush-enrol_more :
      {A : Type 0} (n : ℕ) (next : Walk → Cmd Rf A)
      → w.indev ≡ suc (suc n)
      → w.indev ≤ 255
      → (next_grant (later_grants w.grants)).device ≢ null
      → and_then (flush w st) next
        ≡ (enrol_one (next_grant w.grants) p d
              >> (in_devices (store (next_grant (later_grants w.grants)).device (some blank_device))
                  >> next (record w {
                    indev = suc n;
                    grants = later_grants w.grants;
                    rd = some (next_grant (later_grants w.grants)).device;
                  })))
            st
  unfolding flush change in_devices add_at alloc_device
  flush-enrol_more n next left few got =
      let counted : Device = record d { ctr = 0 } in
      let less : u8 (w.indev + 255) ≡ suc n = omega arith in
      rw
        (
          rd,
          modify-ok pd,
          modify-ok (Points-write st.devices counted pd.ne_null),
          write-write st.devices p (some counted) (some (readied (next_grant w.grants) d)),
          less,
          ne→==-false (next_grant (later_grants w.grants)).device null got,
          ne→==-false (suc n) 0 (omega arith),
        )
        (goes_further _ (add_device _ _ p _)
          (λ s. record s {
            devices =
                write s.devices (next_grant (later_grants w.grants)).device (some blank_device);
          })
          next)
