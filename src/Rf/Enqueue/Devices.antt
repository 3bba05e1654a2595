-- ===== src/Rf/Enqueue/Devices.antt =====
-- `rfAddDevice` against the devices that the map stands for.
use rf_gateway.Base.{
  ℕ, ◌≡◌, ◌≢◌, refl, Bool, Bool-cases, inl, inr, true, false, none, some, [], ◌∷◌, ◌++◌, ◌==◌,
  if◌then◌else◌, ok, Returns, returns, Returns-mono, Ptr, null, Points, Points-not_null,
  Points-write, Points-write_ne, load-ok, modify-ok, free-ok, write, ne→==-false, ap, ◌∙◌,
}
use rf_gateway.Checksum.{address_of}
use rf_gateway.Links.{Cells}
use rf_gateway.HashMap
use rf_gateway.HashMap.{Entries, SetResult}
use rf_gateway.HashMap.View.{Pair, IsMap, value_of, holds}
use rf_gateway.HashMap.Lookup.{get-value_of}
use rf_gateway.HashMap.Assign.{assign, value_of-assign}
use rf_gateway.HashMap.Set.{Added, set-SetDone, value_of-snoc}
use rf_gateway.Rf.{Rf, Device, in_entries, in_devices}
use rf_gateway.Rf.Parts.{in_entries-bind}
use rf_gateway.Rf.Enqueue.{add_device, add_result}

-- The devices after one is added under its address; without memory for an entry there is no change.
abbrev pub stored : (fresh : Ptr) (key : ℕ) → Ptr → Cells Pair → Cells Pair
stored fresh key dev xs =
    if holds key xs
    then assign key dev xs
    else if fresh == null
    then xs
    else xs ++ (fresh, (key, dev)) ∷ []

abbrev pub addressed_by_sn : Device → Device
addressed_by_sn d = record d { addr = address_of d.sn }

-- What `rfAddDevice` ends in.
pub record DeviceAdded (w : Rf) (xs : Cells Pair) (fresh new_dev : Ptr) (d : Device) (r : ℕ)
    (w' : Rf) : Type 0 where
  pub result : r ≡ 0
  pub map : IsMap w'.entries w'.map (stored fresh (address_of d.sn) new_dev xs)
  pub devices : w'.devices ≡ (
      let named = write w.devices new_dev (some (addressed_by_sn d)) in
      if holds (address_of d.sn) xs
      then write named (value_of (address_of d.sn) xs) none
      else named)
  pub sent : w'.sent ≡ w.sent

module _ (w : Rf) {xs : Cells Pair} (fresh : Ptr) (room : Bool) (new_dev : Ptr) (d : Device)
    (is : IsMap w.entries w.map xs) (at : Points w.devices new_dev d)
    (unused : fresh ≢ null → w.entries fresh ≡ none) where
  abbrev key : ℕ
  key = address_of d.sn

  abbrev named : Rf
  named = record w { devices = write w.devices new_dev (some (addressed_by_sn d)) }

  replaced :
      (old : Ptr) (errno : ℕ) (map : HashMap.HashMap) (g : Entries)
      → holds key xs ≡ true
      → (o : Device) × Points w.devices (value_of key xs) o × (value_of key xs ≢ new_dev)
      → (old ≡ value_of key xs)
        × (errno ≡ HashMap.errno_clear)
        × (map ≡ w.map)
        × IsMap g w.map (assign key new_dev xs)
      → Returns
          (DeviceAdded w xs fresh new_dev d)
          (add_result (old, errno, map) (record named { entries = g }))
  unfolding add_result in_devices
  replaced old errno map g hit (o, live, apart) (was, _, same, is') =
      let live' : Points named.devices old o =
        rw was (Points-write_ne (some (addressed_by_sn d)) live apart) in
      rw (Points-not_null live', free-ok live')
        (returns (record {
          result = refl;
          map = rw (hit, same) is';
          devices = rw (hit, was) refl;
          sent = refl;
        }))

  kept :
      (old : Ptr) (errno : ℕ) (map : HashMap.HashMap) (g : Entries) (ys : Cells Pair)
      → holds key xs ≡ false
      → old ≡ null
      → stored fresh key new_dev xs ≡ ys
      → IsMap g map ys
      → Returns
          (DeviceAdded w xs fresh new_dev d)
          (add_result (old, errno, map) (record named { entries = g }))
  unfolding add_result in_devices
  kept old errno map g ys miss none_was eq is' =
      rw none_was
        (returns (record { result = refl; map = rw eq is'; devices = rw miss refl; sent = refl }))

  -- The device gets the hash of its serial number as its address and is found under it from then
  -- on; a device that had the address is given back. The result is 0 even without memory for an
  -- entry, where the device is not stored. A device that the map has under the address is live and
  -- is not the new one.
  pub add_device-DeviceAdded :
      (holds key xs ≡ true
        → (o : Device) × Points w.devices (value_of key xs) o × (value_of key xs ≢ new_dev))
      → Returns (DeviceAdded w xs fresh new_dev d) (add_device fresh room new_dev w)
  unfolding add_device in_devices in_entries
  add_device-DeviceAdded live =
      rw
        (
          modify-ok at addressed_by_sn,
          load-ok (Points-write w.devices (addressed_by_sn d) at.ne_null),
        )
        (in_entries-bind named add_result
          (set-SetDone w.entries w.map key new_dev is fresh room unused)
          λ (old, errno, map) g done. elim (Bool-cases (holds key xs)) [
            | inl hit ↦ replaced old errno map g hit (live hit) (rw hit at done)
            | inr miss ↦ elim (Bool-cases (fresh == null)) [
              | inl failed ↦
                  let (e, e') : ((old, errno, map) ≡ (null, HashMap.enomem, w.map))
                      × (g ≡ w.entries) =
                    rw (miss, failed) at done in
                  kept old errno map g xs miss (ap (λ r. r.0) e) (rw (miss, failed) refl)
                    (rw (ap (λ r. r.2) e, e') is)
              | inr got ↦
                  let a : Added w.entries w.map xs fresh room key new_dev (old, errno, map) g =
                    rw (miss, got) at done in
                  kept old errno map g (xs ++ (fresh, (key, new_dev)) ∷ []) miss a.old
                    (rw (miss, got) refl) a.map
            ]
          ])

  value_of-stored :
      (q : ℕ)
      → fresh ≢ null
      → value_of q (stored fresh key new_dev xs) ≡ (if q == key then new_dev else value_of q xs)
  value_of-stored q got = elim (Bool-cases (holds key xs)) [
    | inl hit ↦ rw hit (value_of-assign q key new_dev xs hit)
    | inr miss ↦ rw (miss, ne→==-false fresh null got) (value_of-snoc q xs fresh key new_dev miss)
  ]

  -- With memory for an entry, `hashmap_get` finds the new device under the hash of its serial
  -- number afterwards, and under any other address what it found before.
  pub get-add_device :
      (holds key xs ≡ true
        → (o : Device) × Points w.devices (value_of key xs) o × (value_of key xs ≢ new_dev))
      → fresh ≢ null
      → Returns
          (λ r w'.
            (q : ℕ)
            → HashMap.get w'.map q w'.entries
              ≡ ok (if q == key then new_dev else value_of q xs) w'.entries)
          (add_device fresh room new_dev w)
  get-add_device live got =
      Returns-mono (add_device-DeviceAdded live)
        λ r w' a q. get-value_of a.map q ∙ rw (value_of-stored q got) refl
