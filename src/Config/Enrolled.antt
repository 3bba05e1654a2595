-- ===== src/Config/Enrolled.antt =====
-- The list of devices of a configuration, from its key to the end of the text.
use rf_gateway.Base.{
  ℕ, zero, suc, ◌+◌, ◌≤◌, ◌<◌, ◌≡◌, ◌≢◌, refl, ap, ◌∙◌, true, false, inl, Option, some, List, arith,
  lt→ltb, ne→==-false, ok, pure, ◌>>◌, and_then, Ptr, null, Points-write, store, write, length, u8,
}
use rf_gateway.Rf.{Rf, in_devices}
use rf_gateway.Config.{
  Walk, Key, all_keys, name_of, Grant, next_grant, later_grants, blank_device, walk, walk_round,
  take_setting, alloc_device, max_iface_len, count_down, ends_device,
}
use rf_gateway.Config.Tokens.{Token, is_string, nth_token, token_at}
use rf_gateway.Config.Settings.{Setting, TextAt, which_key-key_of}
use rf_gateway.Config.Effects.{
  nth_token-lt, key_of-name_of, count_down-grants, count_down-interface,
}
use rf_gateway.Config.Rounds.{passes_on, no_object}
use rf_gateway.Config.Enrol.{enrol}
use rf_gateway.Config.ObjectList.{Objects, last_object, object, AllGiven, later_sets, walk-enrol}

given_first :
    {decode : List ℕ → Option (List ℕ)} {config : List ℕ} {tokens : List Token} {i : ℕ}
    {dss : List (List Setting)} (gs : List Grant)
    → Objects decode config tokens i dss
    → AllGiven gs dss
    → ((next_grant gs).device ≢ null) × AllGiven (later_grants gs) (later_sets dss)
given_first gs (last_object sp) given = given
given_first gs (object leads at rest) given = given

module _ (decode : List ℕ → Option (List ℕ)) (gw : Ptr) (config : List ℕ) (tokens : List Token)
    (i : ℕ) (w : Walk) (st : Rf) where
  abbrev gs : List Grant
  gs = later_grants w.grants

  -- With no device to come, a known key is read.
  walk_round-key :
      (k : Key) (at : TextAt config tokens i (name_of k))
      → is_string at.token.kind ≡ true
      → w.indev ≡ 0
      → walk_round decode true gw config tokens i w st
        ≡ take_setting decode true gw config tokens i (count_down w) (some k) st
  unfolding walk_round token_at
  walk_round-key k at is_text none_yet =
      let stay : ends_device (length tokens) i (count_down w) at.token ≡ false =
        passes_on tokens i at.token (no_object at.token.kind is_text) w (inl none_yet) in
      rw (at.here, stay, which_key-key_of config tokens at all_keys st, is_text, key_of-name_of k)
        refl

  walk_round-devices :
      (at : TextAt config tokens i (name_of Key.devices))
      → is_string at.token.kind ≡ true
      → (list : Token) → nth_token tokens (i + 1) ≡ some list
      → w.indev ≡ 0
      → (next_grant (later_grants w.grants)).device ≢ null
      → walk_round decode true gw config tokens i w st
        ≡ ok
            (
              i + 2,
              record (count_down w) {
                rd = some (next_grant (later_grants w.grants)).device;
                indev = u8 list.size;
                grants = later_grants w.grants;
              },
            )
            (record st {
              devices =
                  write st.devices (next_grant (later_grants w.grants)).device (some blank_device);
            })
  unfolding take_setting alloc_device token_at in_devices
  walk_round-devices at is_text list there none_yet got =
      walk_round-key Key.devices at is_text none_yet
      ∙ rw
          (
            count_down-grants w,
            ne→==-false (next_grant (later_grants w.grants)).device null got,
            there,
          )
          refl

  -- From the key `devices`, with no device to come, with memory for each device and for the text of
  -- each key, where each key decodes, an interface buffer of the declared length, and the array
  -- behind the key of as many devices as the objects behind it, at most 255: up to the end of the
  -- text the walk makes of the devices what the calls of `rfAddDevice` make, one for each object in
  -- order, with its settings, counter 0 and what `list_create` gives as its queue, null if that has
  -- no memory; but the last device only gets its settings, unless the last token of the text is no
  -- part of a known pair.
  pub walk-enrolled :
      (k : ℕ) {dss : List (List Setting)} (at : TextAt config tokens i (name_of Key.devices))
      → is_string at.token.kind ≡ true
      → (list : Token) → nth_token tokens (i + 1) ≡ some list
      → list.size ≡ length dss
      → Objects decode config tokens (i + 3) dss
      → length tokens < k + i
      → w.indev ≡ 0
      → length dss ≤ 255
      → length w.interface ≡ max_iface_len
      → AllGiven (later_grants w.grants) dss
      → and_then (walk decode true gw config tokens k i w st) (λ _. pure tt)
        ≡ (in_devices (store (next_grant (later_grants w.grants)).device (some blank_device))
              >> enrol decode
                  (next_grant (later_grants w.grants))
                  (next_grant (later_grants w.grants)).device
                  blank_device
                  (later_grants (later_grants w.grants))
                  dss)
            st
  unfolding walk in_devices
  walk-enrolled zero at is_text list there many objects fuel none_yet few wide given =
      absurd (omega (arith, nth_token-lt tokens i at.here))
  walk-enrolled (suc k) {dss} at is_text list there many objects fuel none_yet few wide given =
      let (got, given') = given_first (later_grants w.grants) objects given in
      let three : i + 2 + 1 ≡ i + 3 = omega arith in
      let next = (next_grant (later_grants w.grants)).device in
      let w' : Walk = record (count_down w) {
        rd = some next;
        indev = u8 list.size;
        grants = later_grants w.grants;
      } in
      let counted : u8 list.size ≡ length dss = omega (arith, many) in
      let behind =
        walk-enrol decode gw config tokens k (i + 3) w'
          (record st { devices = write st.devices next (some blank_device) }) next blank_device
          objects (omega arith) refl counted few (ap length (count_down-interface w) ∙ wide)
          (Points-write st.devices blank_device got) given' in
      rw
        (
          lt→ltb i (length tokens) (nth_token-lt tokens i at.here),
          walk_round-devices at is_text list there none_yet got,
          three,
        )
        behind
