-- ===== src/Config/Devices.antt =====
-- The walk of config.c over the settings of a device that another one follows, up to the object of
-- that one.
use rf_gateway.Base.{
  ℕ, zero, suc, ◌+◌, ◌≤◌, ◌<◌, ◌≡◌, ◌≢◌, refl, ap, ◌∙◌, true, false, inr, Option, none, some, List,
  [], ◌∷◌, arith, lt→ltb, ne→==-false, Run, ok, fault, out_of_fuel, Cmd, and_then, Ptr, Points,
  Points-write, write, write-write, length,
}
use mathlib.Core.Path.{fun_ext}
use rf_gateway.Rf.{Rf, Device}
use rf_gateway.Config.{
  Walk, Key, all_keys, name_of, walk, walk_round, take_setting, which_key, flush, max_iface_len,
  count_down, ends_device,
}
use rf_gateway.Config.Tokens.{Kind, Token, is_string, is_object, nth_token, token_at, json_eq}
use rf_gateway.Config.Settings.{Setting, pair, other, TextAt, PassedAt}
use rf_gateway.Config.Effects.{
  effect_walk, effect_device, Stays, nth_token-lt, write_self, count_down-indev,
}
use rf_gateway.Config.Rounds.{walk_round-pair, walk_round-other}
use rf_gateway.Config.Object.{walk_after, device_after, effect_walk-rd, effect_walk-interface}

-- From token `i` up to token `j`, the text is these settings.
pub data Leads (decode : List ℕ → Option (List ℕ)) (config : List ℕ) (tokens : List Token) (j : ℕ)
    : ℕ → List Setting → Type 0 where
  here : {i : ℕ} → i ≡ j → Leads decode config tokens j i []
  at_key :
      {i : ℕ} {k : Key} {text : List ℕ} {ss : List Setting}
      (at : TextAt config tokens i (name_of k))
      → is_string at.token.kind ≡ true
      → TextAt config tokens (i + 1) text
      → Stays decode (pair k text)
      → Leads decode config tokens j (i + 2) ss
      → Leads decode config tokens j i (pair k text ∷ ss)
  at_other :
      {i : ℕ} {ss : List Setting}
      → PassedAt config tokens i
      → Leads decode config tokens j (i + 1) ss
      → Leads decode config tokens j i (other ∷ ss)

Leads-le :
    {decode : List ℕ → Option (List ℕ)} {config : List ℕ} {tokens : List Token} {j i : ℕ}
    {ss : List Setting}
    → Leads decode config tokens j i ss
    → i ≤ j
Leads-le (here e) = omega arith
Leads-le (at_key at t v s l) = omega (arith, Leads-le l)
Leads-le (at_other at l) = omega (arith, Leads-le l)

-- Token `i` is an object.
pub record ObjectAt (tokens : List Token) (i : ℕ) : Type 0 where
  pub token : Token
  pub here : nth_token tokens i ≡ some token
  pub is_one : is_object token.kind ≡ true

no_text : (k : Kind) → is_object k ≡ true → is_string k ≡ false
no_text Kind.object e = refl
no_text Kind.string e = cc
no_text Kind.undefined e = cc
no_text Kind.array e = cc
no_text Kind.primitive e = cc

which_key-none :
    (config : List ℕ) (t : Token) (ks : List Key) (st : Rf)
    → is_string t.kind ≡ false
    → which_key config t ks st ≡ ok none st
unfolding which_key json_eq
which_key-none config t [] st plain = refl
which_key-none config t (k ∷ ks) st plain = rw plain (which_key-none config t ks st plain)

pub joined_run :
    {S A B C : Type 0} (r : Run S A) (f : A → Cmd S B) (g : B → Cmd S C)
    → and_then (and_then r f) g ≡ and_then r (λ a s. and_then (f a s) g)
joined_run (ok a s) f g = refl
joined_run fault f g = refl
joined_run out_of_fuel f g = refl

module _ (decode : List ℕ → Option (List ℕ)) (gw : Ptr) (config : List ℕ) (tokens : List Token)
    (j : ℕ) where
  -- The walk gets to token `j`, with the settings done and fuel for the rest.
  pub walk-Leads :
      (k i : ℕ) {ss : List Setting} (w : Walk) (st : Rf) (p : Ptr) (d : Device)
      → Leads decode config tokens j i ss
      → j < length tokens
      → length tokens < k + i
      → w.rd ≡ some p
      → Points st.devices p d
      → length w.interface ≡ max_iface_len
      → (m : ℕ) × (length tokens < m + j)
        × (length (walk_after ss w).interface ≡ max_iface_len)
        × (walk decode true gw config tokens k i w st
            ≡ walk decode true gw config tokens m j
                (walk_after ss w)
                (record st { devices = write st.devices p (some (device_after decode ss d)) }))
  unfolding walk
  walk-Leads k i w st p d (here e) inside fuel rd pd wide =
      (k, omega (arith, e), wide, rw (e, write_self st p d pd.holds) refl)
  walk-Leads zero i w st p d (at_key at t v s l) inside fuel rd pd wide =
      absurd (omega (arith, Leads-le l))
  walk-Leads zero i w st p d (at_other at l) inside fuel rd pd wide =
      absurd (omega (arith, Leads-le l))
  walk-Leads (suc k) i w st p d (at_key {k = key} {text} {ss} at t v s l) inside fuel rd pd wide =
      let two : i + 1 + 1 ≡ i + 2 = omega arith in
      let d' = effect_device decode (pair key text) d in
      let st' : Rf = record st { devices = write st.devices p (some d') } in
      let (m, left, wide', ih) =
        walk-Leads k (i + 2) (effect_walk (pair key text) w) st' p d' l inside (omega arith)
          (effect_walk-rd (pair key text) w ∙ rd) (Points-write st.devices d' pd.ne_null)
          (effect_walk-interface (pair key text) w wide) in
      (
        m,
        left,
        wide',
        rw
            (
              lt→ltb i (length tokens) (omega (arith, Leads-le l)),
              walk_round-pair decode gw config tokens i p d key text w st at t v s rd pd wide,
              two,
              ih,
              write-write st.devices p (some d') (some (device_after decode ss d')),
            )
            refl,
      )
  walk-Leads (suc k) i w st p d (at_other {ss} at l) inside fuel rd pd wide =
      let (m, left, wide', ih) =
        walk-Leads k (i + 1) (effect_walk other w) st p d l inside (omega arith)
          (effect_walk-rd other w ∙ rd) pd (effect_walk-interface other w wide) in
      (
        m,
        left,
        wide',
        rw
            (
              lt→ltb i (length tokens) (omega (arith, Leads-le l)),
              walk_round-other decode gw config tokens i p d w st at
                  (inr (omega (arith, Leads-le l))),
              ih,
            )
            refl,
      )

  walk_round-ObjectAt :
      (w : Walk) (st : Rf)
      → ObjectAt tokens j
      → w.indev ≢ 0
      → walk_round decode true gw config tokens j w st
        ≡ and_then (flush (count_down w) st) (λ w' s. ok (j, w') s)
  unfolding walk_round take_setting token_at
  walk_round-ObjectAt w st at some_left =
      let ends : ends_device (length tokens) j (count_down w) at.token ≡ true =
        rw (count_down-indev w, ne→==-false w.indev 0 some_left, at.is_one) refl in
      rw (at.here, ends)
        (ap (λ (f : Walk → Cmd Rf (ℕ × Walk)). and_then (flush (count_down w) st) f)
          (fun_ext λ w2. fun_ext λ st2.
            rw (which_key-none config at.token all_keys st2 (no_text at.token.kind at.is_one))
              refl))

  -- At an object the device at `rd` is given away, if there is one to come.
  pub walk-ObjectAt :
      (k : ℕ) (w : Walk) (st : Rf)
      → ObjectAt tokens j
      → w.indev ≢ 0
      → walk decode true gw config tokens (suc k) j w st
        ≡ and_then (flush (count_down w) st) (λ w'. walk decode true gw config tokens k (j + 1) w')
  unfolding walk
  walk-ObjectAt k w st at some_left =
      rw
        (
          lt→ltb j (length tokens) (nth_token-lt tokens j at.here),
          walk_round-ObjectAt w st at some_left,
        )
        (joined_run (flush (count_down w) st) _ _)
