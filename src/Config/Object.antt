-- ===== src/Config/Object.antt =====
-- The walk of config.c from a device's first setting to the end of the text.
use rf_gateway.Base.{
  ℕ, zero, suc, ◌+◌, ◌≤◌, ◌<◌, ◌≡◌, refl, ap, ◌∙◌, Bool, true, false, not, ◌&&◌, Bool-cases, inl,
  inr, Option, some, List, [], ◌∷◌, arith, ltb, lt→ltb, ◌==◌, ==_iff, if◌then◌else◌, ok, pure,
  and_then, Run, fault, out_of_fuel, Ptr, Points, Points-write, write, write-write, length,
}
use rf_gateway.Rf.{Rf, Device}
use rf_gateway.Config.{Walk, Key, name_of, walk, flush, max_iface_len, count_down}
use rf_gateway.Config.Tokens.{Token, is_string}
use rf_gateway.Config.Settings.{Setting, pair, other, TextAt, PassedAt}
use rf_gateway.Config.Effects.{
  set_walk, effect_walk, effect_device, Stays, nth_token-lt, write_self, length-interface_with,
  count_down-rd, count_down-grants, count_down-indev, count_down-interface,
}
use rf_gateway.Config.Rounds.{walk_round-pair, walk_round-other, walk_round-last}

-- From token `i` on, the text is these settings, to its end.
pub data Spells (decode : List ℕ → Option (List ℕ)) (config : List ℕ) (tokens : List Token)
    : ℕ → List Setting → Type 0 where
  at_end : {i : ℕ} → i ≡ length tokens → Spells decode config tokens i []
  at_key :
      {i : ℕ} {k : Key} {text : List ℕ} {ss : List Setting}
      (at : TextAt config tokens i (name_of k))
      → is_string at.token.kind ≡ true
      → TextAt config tokens (i + 1) text
      → Stays decode (pair k text)
      → Spells decode config tokens (i + 2) ss
      → Spells decode config tokens i (pair k text ∷ ss)
  at_other :
      {i : ℕ} {ss : List Setting}
      → PassedAt config tokens i
      → Spells decode config tokens (i + 1) ss
      → Spells decode config tokens i (other ∷ ss)

abbrev pub walk_after : List Setting → Walk → Walk
walk_after [] w = w
walk_after (s ∷ ss) w = walk_after ss (effect_walk s w)

abbrev pub device_after : (decode : List ℕ → Option (List ℕ)) → List Setting → Device → Device
device_after decode [] d = d
device_after decode (s ∷ ss) d = device_after decode ss (effect_device decode s d)

-- The last token is no part of a pair that the tests know.
abbrev pub last_other : List Setting → Bool
last_other [] = false
last_other (other ∷ []) = true
last_other (pair k text ∷ []) = false
last_other (s ∷ t ∷ ss) = last_other (t ∷ ss)

pub effect_walk-rd : (s : Setting) (w : Walk) → (effect_walk s w).rd ≡ w.rd
effect_walk-rd other w = count_down-rd w
effect_walk-rd (pair Key.version text) w = count_down-rd w
effect_walk-rd (pair Key.gateway text) w = count_down-rd w
effect_walk-rd (pair Key.iface text) w = count_down-rd w
effect_walk-rd (pair Key.id text) w = count_down-rd w
effect_walk-rd (pair Key.bcast text) w = count_down-rd w
effect_walk-rd (pair Key.secret text) w = count_down-rd w
effect_walk-rd (pair Key.devices text) w = count_down-rd w

effect_walk-indev : (s : Setting) (w : Walk) → (effect_walk s w).indev ≡ w.indev
effect_walk-indev other w = count_down-indev w
effect_walk-indev (pair Key.version text) w = count_down-indev w
effect_walk-indev (pair Key.gateway text) w = count_down-indev w
effect_walk-indev (pair Key.iface text) w = count_down-indev w
effect_walk-indev (pair Key.id text) w = count_down-indev w
effect_walk-indev (pair Key.bcast text) w = count_down-indev w
effect_walk-indev (pair Key.secret text) w = count_down-indev w
effect_walk-indev (pair Key.devices text) w = count_down-indev w

effect_walk-grants : (s : Setting) (w : Walk) → (effect_walk s w).grants ≡ w.grants
effect_walk-grants other w = count_down-grants w
effect_walk-grants (pair Key.version text) w = count_down-grants w
effect_walk-grants (pair Key.gateway text) w = count_down-grants w
effect_walk-grants (pair Key.iface text) w = count_down-grants w
effect_walk-grants (pair Key.id text) w = count_down-grants w
effect_walk-grants (pair Key.bcast text) w = count_down-grants w
effect_walk-grants (pair Key.secret text) w = count_down-grants w
effect_walk-grants (pair Key.devices text) w = count_down-grants w

-- The settings of one object leave what belongs to the list of devices.
pub walk_after-kept :
    (ss : List Setting) (w : Walk)
    → ((walk_after ss w).rd ≡ w.rd)
      × ((walk_after ss w).indev ≡ w.indev)
      × ((walk_after ss w).grants ≡ w.grants)
walk_after-kept [] w = (refl, refl, refl)
walk_after-kept (s ∷ ss) w =
    let (rd, indev, grants) = walk_after-kept ss (effect_walk s w) in
    (rd ∙ effect_walk-rd s w, indev ∙ effect_walk-indev s w, grants ∙ effect_walk-grants s w)

pub effect_walk-interface :
    (s : Setting) (w : Walk)
    → length w.interface ≡ max_iface_len
    → length (effect_walk s w).interface ≡ max_iface_len
effect_walk-interface s w wide = let kept = ap length (count_down-interface w) ∙ wide in go s kept
  where
    go :
        (s : Setting)
        → length (count_down w).interface ≡ max_iface_len
        → length (set_walk s (count_down w)).interface ≡ max_iface_len
    go other e = e
    go (pair Key.version text) e = e
    go (pair Key.gateway text) e = e
    go (pair Key.iface text) e = length-interface_with (count_down w).interface text e
    go (pair Key.id text) e = e
    go (pair Key.bcast text) e = e
    go (pair Key.secret text) e = e
    go (pair Key.devices text) e = e

absurd_test : (n : ℕ) → (n == 0) ≡ false → n ≡ 0 → ⊥
absurd_test n e z = ground arith

last_other-pair :
    (k : Key) (text : List ℕ) (ss : List Setting) → last_other (pair k text ∷ ss) ≡ last_other ss
last_other-pair k text [] = refl
last_other-pair k text (s ∷ ss) = refl

module _ (decode : List ℕ → Option (List ℕ)) (gw : Ptr) (config : List ℕ) (tokens : List Token)
    (p : Ptr) where
  walk-stops :
      (k j : ℕ) (w : Walk) (st : Rf)
      → 0 < k
      → length tokens ≤ j
      → walk decode true gw config tokens k j w st ≡ ok w st
  unfolding walk
  walk-stops zero j w st some_fuel over = absurd (omega arith)
  walk-stops (suc k) j w st some_fuel over =
      let stop : ltb j (length tokens) ≡ false = ground arith in rw stop refl

  stops_behind :
      (k i : ℕ) (r : Run Rf Walk)
      → 0 < k
      → length tokens ≤ i + 1
      → and_then
          (and_then r (λ w' s. ok (i, w') s))
          (λ (j, w'). walk decode true gw config tokens k (j + 1) w')
        ≡ r
  stops_behind k i (ok w st) some_fuel over = walk-stops k (i + 1) w st some_fuel over
  stops_behind k i fault some_fuel over = refl
  stops_behind k i out_of_fuel some_fuel over = refl

  -- The walk ends at the end of the text. If there are devices to come and the last token is passed
  -- over, the device at `rd` is then given to `rfAddDevice`; otherwise it is not.
  pub walk-Spells :
      (k i : ℕ) {ss : List Setting} (w : Walk) (st : Rf) (d : Device)
      → Spells decode config tokens i ss
      → length tokens < k + i
      → w.rd ≡ some p
      → Points st.devices p d
      → length w.interface ≡ max_iface_len
      → walk decode true gw config tokens k i w st
        ≡ (if not (w.indev == 0) && last_other ss then flush else pure)
            (walk_after ss w)
            (record st { devices = write st.devices p (some (device_after decode ss d)) })
  unfolding walk
  walk-Spells zero i w st d (at_end e) fuel rd pd wide = absurd (omega arith)
  walk-Spells zero i w st d (at_key at t v s sp) fuel rd pd wide =
      absurd (omega (arith, nth_token-lt tokens i at.here))
  walk-Spells zero i w st d (at_other at sp) fuel rd pd wide =
      absurd (omega (arith, nth_token-lt tokens i at.at.here))
  walk-Spells (suc k) i w st d (at_end e) fuel rd pd wide =
      let stop : ltb i (length tokens) ≡ false = ground arith in
      elim (Bool-cases (w.indev == 0)) [
        | inl none_left ↦ rw (stop, none_left, write_self st p d pd.holds) refl
        | inr some_left ↦ rw (stop, some_left, write_self st p d pd.holds) refl
      ]
  walk-Spells (suc k) i w st d (at_key {k = key} {text} {ss} at t v s sp) fuel rd pd wide =
      let inside = nth_token-lt tokens i at.here in
      let two : i + 1 + 1 ≡ i + 2 = omega arith in
      let d' = effect_device decode (pair key text) d in
      let st' : Rf = record st { devices = write st.devices p (some d') } in
      let ih =
        walk-Spells k (i + 2) (effect_walk (pair key text) w) st' d' sp (omega arith)
          (effect_walk-rd (pair key text) w ∙ rd) (Points-write st.devices d' pd.ne_null)
          (effect_walk-interface (pair key text) w wide) in
      rw
        (
          lt→ltb i (length tokens) inside,
          walk_round-pair decode gw config tokens i p d key text w st at t v s rd pd wide,
          two,
          ih,
          effect_walk-indev (pair key text) w,
          last_other-pair key text ss,
          write-write st.devices p (some d') (some (device_after decode ss d')),
        )
        refl
  walk-Spells (suc k) i w st d (at_other at (at_end e)) fuel rd pd wide =
      let inside = nth_token-lt tokens i at.at.here in
      elim (Bool-cases (w.indev == 0)) [
        | inl none_left ↦
            let round =
              walk_round-other decode gw config tokens i p d w st at
                (inl ((==_iff w.indev 0).0 none_left)) in
            let ih =
              walk-Spells k (i + 1) (effect_walk other w) st d (at_end e) (omega arith)
                (effect_walk-rd other w ∙ rd) pd (effect_walk-interface other w wide) in
            rw (lt→ltb i (length tokens) inside, round, ih, effect_walk-indev other w, none_left)
              refl
        | inr some_left ↦
            rw
              (
                lt→ltb i (length tokens) inside,
                walk_round-last decode gw config tokens i p d w st at
                    (λ none_left. absurd_test w.indev some_left none_left) e,
                some_left,
                write_self st p d pd.holds,
              )
              (stops_behind k i (flush (count_down w) st) (omega arith) (omega arith))
      ]
  walk-Spells (suc k) i w st d (at_other at (at_key {k = key} {text} {ss} at' t v s sp)) fuel rd pd
        wide =
      let inside = nth_token-lt tokens (i + 1) at'.here in
      let ih =
        walk-Spells k (i + 1) (effect_walk other w) st d (at_key at' t v s sp) (omega arith)
          (effect_walk-rd other w ∙ rd) pd (effect_walk-interface other w wide) in
      let round = walk_round-other decode gw config tokens i p d w st at (inr inside) in
      rw (lt→ltb i (length tokens) (omega arith), round, ih, effect_walk-indev other w) refl
  walk-Spells (suc k) i w st d (at_other at (at_other at' sp)) fuel rd pd wide =
      let inside = nth_token-lt tokens (i + 1) at'.at.here in
      let ih =
        walk-Spells k (i + 1) (effect_walk other w) st d (at_other at' sp) (omega arith)
          (effect_walk-rd other w ∙ rd) pd (effect_walk-interface other w wide) in
      let round = walk_round-other decode gw config tokens i p d w st at (inr inside) in
      rw (lt→ltb i (length tokens) (omega arith), round, ih, effect_walk-indev other w) refl
