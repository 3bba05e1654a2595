-- ===== src/Config/ObjectList.antt =====
-- The walk of config.c over the objects of the devices, up to the end of the text.
use rf_gateway.Base.{
  ℕ, zero, suc, ◌+◌, ◌≤◌, ◌<◌, ◌≡◌, ◌≢◌, refl, sym, ap, ◌∙◌, true, false, Bool-cases, inl, inr,
  Option, some, List, [], ◌∷◌, arith, ◌==◌, ne→==-false, Cmd, pure, ◌>>◌, and_then, Ptr, null,
  Points, Points-write, store, write, write-write, length,
}
use mathlib.Core.Path.{fun_ext}
use rf_gateway.Rf.{Rf, Device, in_devices}
use rf_gateway.Config.{
  Walk, Grant, next_grant, later_grants, blank_device, walk, flush, max_iface_len, count_down,
}
use rf_gateway.Config.Tokens.{Token}
use rf_gateway.Config.Settings.{Setting}
use rf_gateway.Config.Effects.{
  nth_token-lt, count_down-indev, count_down-rd, count_down-grants, count_down-interface,
}
use rf_gateway.Config.Object.{
  Spells, walk_after, device_after, last_other, walk-Spells, walk_after-kept,
}
use rf_gateway.Config.Last.{readied}
use rf_gateway.Config.Devices.{Leads, ObjectAt, walk-Leads, walk-ObjectAt, joined_run}
use rf_gateway.Config.Enrol.{enrol_one, enrol, flush-enrol_one, flush-enrol_more}

-- From the token behind an object on, the text is the settings of these devices, to its end.
pub data Objects (decode : List ℕ → Option (List ℕ)) (config : List ℕ) (tokens : List Token)
    : ℕ → List (List Setting) → Type 0 where
  last_object :
      {i : ℕ} {ss : List Setting}
      → Spells decode config tokens i ss
      → Objects decode config tokens i (ss ∷ [])
  object :
      {i j : ℕ} {ss ts : List Setting} {more : List (List Setting)}
      → Leads decode config tokens j i ss
      → ObjectAt tokens j
      → Objects decode config tokens (j + 1) (ts ∷ more)
      → Objects decode config tokens i (ss ∷ ts ∷ more)

-- There is memory for a device for each of these.
abbrev pub AllGiven : List Grant → List (List Setting) → Type 0
AllGiven gs [] = Unit {0}
AllGiven gs (ss ∷ dss) = ((next_grant gs).device ≢ null) × AllGiven (later_grants gs) dss

-- The rest of a list of settings, and how many there are.
abbrev pub later_sets : List (List Setting) → List (List Setting)
later_sets [] = []
later_sets (ss ∷ dss) = dss

module _ (decode : List ℕ → Option (List ℕ)) (gw : Ptr) (config : List ℕ)
    (tokens : List Token) where
  -- The walk from an object on, for a walk behind it that is known.
  at_object :
      (m j n : ℕ) (w w1 : Walk) (st : Rf) (p : Ptr) (d : Device) (rest : Cmd Rf (Unit {0}))
      → ObjectAt tokens j
      → length tokens < m + j
      → count_down w ≡ w1
      → w1.rd ≡ some p
      → w1.indev ≡ suc (suc n)
      → w1.indev ≤ 255
      → Points st.devices p d
      → (next_grant (later_grants w1.grants)).device ≢ null
      → ((k : ℕ) (st2 : Rf)
          → length tokens < k + (j + 1)
          → Points st2.devices (next_grant (later_grants w1.grants)).device blank_device
          → and_then
              (walk decode true gw config tokens k
                (j + 1)
                (record w1 {
                  indev = suc n;
                  grants = later_grants w1.grants;
                  rd = some (next_grant (later_grants w1.grants)).device;
                })
                st2)
              (λ _. pure tt)
            ≡ rest st2)
      → and_then (walk decode true gw config tokens m j w st) (λ _. pure tt)
        ≡ (enrol_one (next_grant w1.grants) p d
              >> (in_devices
                    (store (next_grant (later_grants w1.grants)).device (some blank_device))
                  >> rest))
            st
  unfolding in_devices
  at_object zero j n w w1 st p d rest at fuel one rd left few pd got behind =
      absurd (omega (arith, nth_token-lt tokens j at.here))
  at_object (suc k) j n w w1 st p d rest at fuel one rd left few pd got behind =
      let after : Walk → Cmd Rf (Unit {0}) =
        λ w'' s. and_then (walk decode true gw config tokens k (j + 1) w'' s) (λ _. pure tt) in
      let some_left : w.indev ≢ 0 =
        omega (arith, left, sym (count_down-indev w), ap (λ v. v.indev) one) in
      let more = flush-enrol_more w1 st p d rd pd n after left few got in
      rw (walk-ObjectAt decode gw config tokens j k w st at some_left, one)
        (joined_run (flush w1 st) (λ w'. walk decode true gw config tokens k (j + 1) w') _
          ∙ more
          ∙ ap (λ (f : Cmd Rf (Unit {0})). (enrol_one (next_grant w1.grants) p d >> f) st)
              (fun_ext λ s.
                behind k
                  (record s {
                    devices =
                        write s.devices (next_grant (later_grants w1.grants)).device
                          (some blank_device);
                  })
                  (omega arith) (Points-write s.devices blank_device got)))

  -- From the token behind an object to the end of the text.
  pub walk-enrol :
      (k i : ℕ) {dss : List (List Setting)} (w : Walk) (st : Rf) (p : Ptr) (d : Device)
      → Objects decode config tokens i dss
      → length tokens < k + i
      → w.rd ≡ some p
      → w.indev ≡ length dss
      → length dss ≤ 255
      → length w.interface ≡ max_iface_len
      → Points st.devices p d
      → AllGiven (later_grants w.grants) (later_sets dss)
      → and_then (walk decode true gw config tokens k i w st) (λ _. pure tt)
        ≡ enrol decode (next_grant w.grants) p d (later_grants w.grants) dss st
  unfolding in_devices
  walk-enrol k i w st p d (last_object {ss} sp) fuel rd left few wide pd given =
      let d' = device_after decode ss d in
      let named : Rf = record st { devices = write st.devices p (some d') } in
      let (rd', indev', grants') = walk_after-kept ss w in
      let some_left : (w.indev == 0) ≡ false = ne→==-false w.indev 0 (omega (arith, left)) in
      rw (walk-Spells decode gw config tokens p k i w st d sp fuel rd pd wide, some_left)
        (elim (Bool-cases (last_other ss)) [
          | inr pair_last ↦ rw pair_last refl
          | inl other_last ↦
              let ends =
                flush-enrol_one (walk_after ss w) named p d' (rd' ∙ rd)
                  (Points-write st.devices d' pd.ne_null) (indev' ∙ left) in
              rw
                (
                  other_last,
                  ends,
                  grants',
                  write-write st.devices p (some d') (some (readied (next_grant w.grants) d')),
                )
                refl
        ])
  walk-enrol k i w st p d (object {j} {ss} {ts} {more} leads at rest) fuel rd left few wide pd
        given =
      let d' = device_after decode ss d in
      let named : Rf = record st { devices = write st.devices p (some d') } in
      let inside = nth_token-lt tokens j at.here in
      let (m, more_fuel, wide', leading) =
        walk-Leads decode gw config tokens j k i w st p d leads inside fuel rd pd wide in
      let w' = walk_after ss w in
      let (rd', indev', grants') = walk_after-kept ss w in
      let w1 : Walk = record (count_down w') { grants = w.grants } in
      let one : count_down w' ≡ w1 =
        ap (λ (gs : List Grant). record (count_down w') { grants = gs })
          (count_down-grants w' ∙ grants') in
      let next = (next_grant (later_grants w.grants)).device in
      let step =
        at_object m j (length more) w' w1 named p d'
          (enrol decode (next_grant (later_grants w.grants)) next blank_device
            (later_grants (later_grants w.grants)) (ts ∷ more))
          at more_fuel one (count_down-rd w' ∙ rd' ∙ rd) (count_down-indev w' ∙ indev' ∙ left)
          (omega (arith, count_down-indev w', indev', left)) (Points-write st.devices d' pd.ne_null)
          given.0
          (λ k2 st2 fuel2 pd2.
            walk-enrol k2 (j + 1)
              (record w1 {
                indev = suc (length more);
                grants = later_grants w.grants;
                rd = some next;
              })
              st2 next blank_device rest fuel2 refl refl (omega arith)
              (ap length (count_down-interface w') ∙ wide') pd2 given.1) in
      rw leading (
        step
        ∙ rw (write-write st.devices p (some d') (some (readied (next_grant w.grants) d'))) refl)
