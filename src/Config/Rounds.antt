-- ===== src/Config/Rounds.antt =====
-- The rounds of the walk of config.c, at a token of each kind.
use rf_gateway.Base.{
  ℕ, ◌+◌, ◌<◌, ◌≡◌, ◌≢◌, refl, ap, ◌∙◌, true, false, Bool-cases, inl, inr, ◌⊎◌, Option, none, some,
  List, arith, if◌then◌else◌, Cmd, ok, pure, ◌>>=◌, Ptr, Points, write, length, ne→==-false,
  ==_refl, and_then,
}
use mathlib.Core.Path.{fun_ext}
use rf_gateway.Rf.{Rf, Device}
use rf_gateway.Config.{
  Walk, Key, all_keys, name_of, take_setting, walk_round, flush, ends_device, count_down,
  max_iface_len,
}
use rf_gateway.Config.Tokens.{Token, Kind, is_string, is_object}
use rf_gateway.Config.Settings.{
  pair, other, key_of, TextAt, PassedAt, token_at-TextAt, which_key-key_of,
}
use rf_gateway.Config.Effects.{
  effect_walk, effect_device, Stays, nth_token-lt, count_down-rd, count_down-indev,
  count_down-interface, take_setting-effect, key_of-name_of,
}

pub no_object : (k : Kind) → is_string k ≡ true → is_object k ≡ false
no_object Kind.string e = refl
no_object Kind.undefined e = cc
no_object Kind.object e = cc
no_object Kind.array e = cc
no_object Kind.primitive e = cc

module _ (tokens : List Token) (i : ℕ) where
  pub passes_on :
      (t : Token)
      → is_object t.kind ≡ false
      → (w : Walk) → (w.indev ≡ 0) ⊎ (i + 1 < length tokens)
      → ends_device (length tokens) i (count_down w) t ≡ false
  passes_on t plain w (inl none_left) = rw (count_down-indev w, none_left) refl
  passes_on t plain w (inr inner) =
      rw (plain, ne→==-false (i + 1) (length tokens) (omega arith)) (ground arith)

passed :
    {config : List ℕ} {tokens : List Token} {i : ℕ} (at : PassedAt config tokens i)
    → (if is_string at.at.token.kind then key_of at.text all_keys else none) ≡ none
passed at = elim (Bool-cases (is_string at.at.token.kind)) [
  | inl text ↦ rw text (at.unknown text)
  | inr no_text ↦ rw no_text refl
]

module _ (decode : List ℕ → Option (List ℕ)) (gw : Ptr) (config : List ℕ) (tokens : List Token)
    (i : ℕ) (p : Ptr) (d : Device) where
  -- A round at a key and its value.
  pub walk_round-pair :
      (k : Key) (text : List ℕ) (w : Walk) (st : Rf)
      → (at : TextAt config tokens i (name_of k)) → is_string at.token.kind ≡ true
      → TextAt config tokens (i + 1) text
      → Stays decode (pair k text)
      → w.rd ≡ some p
      → Points st.devices p d
      → length w.interface ≡ max_iface_len
      → walk_round decode true gw config tokens i w st
        ≡ ok
            (i + 1, effect_walk (pair k text) w)
            (record st {
              devices = write st.devices p (some (effect_device decode (pair k text) d));
            })
  unfolding walk_round
  walk_round-pair k text w st at is_text value stays e pd wide =
      let inner : i + 1 < length tokens = nth_token-lt tokens (i + 1) value.here in
      let stay : ends_device (length tokens) i (count_down w) at.token ≡ false =
        passes_on tokens i at.token (no_object at.token.kind is_text) w (inr inner) in
      rw
        (
          token_at-TextAt config tokens at st,
          stay,
          which_key-key_of config tokens at all_keys st,
          is_text,
          key_of-name_of k,
        )
        (take_setting-effect decode gw config tokens i p d k text (count_down w) st value stays
          (count_down-rd w ∙ e) pd (ap length (count_down-interface w) ∙ wide))

  -- A round at a token that is passed over, which ends no device.
  pub walk_round-other :
      (w : Walk) (st : Rf) (at : PassedAt config tokens i)
      → (w.indev ≡ 0) ⊎ (i + 1 < length tokens)
      → walk_round decode true gw config tokens i w st ≡ ok (i, effect_walk other w) st
  unfolding walk_round take_setting
  walk_round-other w st at inner =
      let stay : ends_device (length tokens) i (count_down w) at.at.token ≡ false =
        passes_on tokens i at.at.token at.no_object w inner in
      rw
        (
          token_at-TextAt config tokens at.at st,
          stay,
          which_key-key_of config tokens at.at all_keys st,
          passed at,
        )
        refl

  -- A round at a token that is passed over and is the last of the text, with a device at `rd`.
  pub walk_round-last :
      (w : Walk) (st : Rf) (at : PassedAt config tokens i)
      → w.indev ≢ 0
      → i + 1 ≡ length tokens
      → walk_round decode true gw config tokens i w st
        ≡ (do w' ← flush (count_down w); pure (i, w')) st
  unfolding walk_round take_setting
  walk_round-last w st at some_left last =
      let ends : ends_device (length tokens) i (count_down w) at.at.token ≡ true =
        rw (count_down-indev w, ne→==-false w.indev 0 some_left, last, ==_refl (length tokens))
          (ground arith) in
      rw (token_at-TextAt config tokens at.at st, ends)
        (ap (λ (f : Walk → Cmd Rf (ℕ × Walk)). and_then (flush (count_down w) st) f)
          (fun_ext λ w2.
            fun_ext λ st2. rw (which_key-key_of config tokens at.at all_keys st2, passed at) refl))
