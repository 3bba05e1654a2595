-- ===== src/Config/Effects.antt =====
-- What a round of the loop of config.c does with one setting.
use rf_gateway.Base.{
  ℕ, zero, suc, ◌+◌, ◌-◌, ◌≤◌, ◌<◌, ◌≡◌, refl, ap, ◌∙◌, true, false, Bool-cases, inl, inr, Option,
  none, some, List, [], ◌∷◌, ◌++◌, arith, ltb, leb, ltb→lt, if◌then◌else◌, ok, Ptr, Points,
  modify-ok, write, length, length-append, length-replicate, replicate, splice, length-splice, span,
  patch-ok, u16, u32, codes,
}
use mathlib.Core.Path.{fun_ext}
use rf_gateway.Rf.{Rf, Device, in_devices}
use rf_gateway.Config.{
  Walk, Key, all_keys, name_of, take_setting, count_down, change, put_interface, put_key, with_key,
  max_iface_len,
}
use rf_gateway.Config.Scan.{scan, assigned}
use rf_gateway.Config.Tokens.{Token, same_text, before_zero, nth_token, text_of}
use rf_gateway.Config.Settings.{Setting, pair, key_of, TextAt, token_at-TextAt, text_of-TextAt}

-- The array `interface` with a name in it, or with the default for a name that is too long.
abbrev pub interface_with : (interface text : List ℕ) → List ℕ
interface_with interface text =
    if ltb (length text) max_iface_len
    then (let name = before_zero text in
        splice (splice interface 0 (name ++ replicate (length text - length name) 0)) (length text)
          (0 ∷ []))
    else splice interface 0 (codes "rf0" ++ 0 ∷ [])

-- A device with the key and vector that a text decodes to.
abbrev pub keyed : Option (List ℕ) → Device → Device
keyed none d = d
keyed (some out) d =
    if leb 32 (length out)
    then with_key (span out 0 16) (span out 16 16) d
    else with_key (replicate 16 0xff) (replicate 16 0x00) d

abbrev pub set_walk : Setting → Walk → Walk
set_walk (pair Key.version text) w = record w {
  version = assigned u16 w.version (scan (before_zero text));
}
set_walk (pair Key.iface text) w = record w { interface = interface_with w.interface text }
set_walk s w = w

-- A round also counts down.
abbrev pub effect_walk : Setting → Walk → Walk
effect_walk s w = set_walk s (count_down w)

abbrev pub effect_device : (decode : List ℕ → Option (List ℕ)) → Setting → Device → Device
effect_device decode (pair Key.id text) d = record d {
  sn = assigned u32 d.sn (scan (before_zero text));
}
effect_device decode (pair Key.bcast text) d = record d {
  addr = assigned u32 d.addr (scan (before_zero text));
}
effect_device decode (pair Key.secret text) d = keyed (decode text) d
effect_device decode s d = d

-- Settings that stay with one device, whose keys can be decoded.
abbrev pub Stays : (decode : List ℕ → Option (List ℕ)) → Setting → Type 0
Stays decode (pair Key.gateway text) = ⊥
Stays decode (pair Key.devices text) = ⊥
Stays decode (pair Key.secret text) =
    (out : List ℕ) × (decode text ≡ some out) × (length out ≤ length text)
Stays decode s = Unit {0}

length-before_zero : (text : List ℕ) → length (before_zero text) ≤ length text
unfolding before_zero
length-before_zero [] = omega arith
length-before_zero (c ∷ cs) = ground (arith, length-before_zero cs)

module _ (interface text : List ℕ) (wide : length interface ≡ max_iface_len) where
  abbrev padded : List ℕ
  padded = before_zero text ++ replicate (length text - length (before_zero text)) 0

  length-padded : length padded ≡ length text
  length-padded = omega (
    arith,
    length-append (before_zero text) (replicate (length text - length (before_zero text)) 0),
    length-replicate {A = ℕ} (length text - length (before_zero text)) 0,
    length-before_zero text,
  )

  put_interface-interface_with :
      (st : Rf) → put_interface interface text st ≡ ok (interface_with interface text) st
  unfolding put_interface
  put_interface-interface_with st = elim (Bool-cases (ltb (length text) max_iface_len)) [
    | inl short ↦
        let fits : length text < max_iface_len = ltb→lt _ _ short in
        rw
          (
            short,
            patch-ok interface 0 padded st (omega (arith, length-padded)),
            patch-ok (splice interface 0 padded) (length text) (0 ∷ []) st (
                omega (
                  arith,
                  length-padded,
                  length-splice interface 0 padded (omega (arith, length-padded)),
                )),
          )
          refl
    | inr long ↦ rw (long, patch-ok interface 0 (codes "rf0" ++ 0 ∷ []) st (omega arith)) refl
  ]

  pub length-interface_with : length (interface_with interface text) ≡ max_iface_len
  length-interface_with = elim (Bool-cases (ltb (length text) max_iface_len)) [
    | inl short ↦
        let fits : length text < max_iface_len = ltb→lt _ _ short in
        let first = length-splice interface 0 padded (omega (arith, length-padded)) in
        rw short (
          length-splice (splice interface 0 padded) (length text) (0 ∷ []) (omega (arith, first))
          ∙ first
          ∙ wide)
    | inr long ↦ rw long (length-splice interface 0 (codes "rf0" ++ 0 ∷ []) (omega arith) ∙ wide)
  ]

pub key_of-name_of : (k : Key) → key_of (name_of k) all_keys ≡ some k
unfolding same_text
key_of-name_of Key.version = refl
key_of-name_of Key.gateway = refl
key_of-name_of Key.iface = refl
key_of-name_of Key.id = refl
key_of-name_of Key.bcast = refl
key_of-name_of Key.secret = refl
key_of-name_of Key.devices = refl

pub nth_token-lt :
    (tokens : List Token) (i : ℕ) {t : Token} → nth_token tokens i ≡ some t → i < length tokens
nth_token-lt [] i e = cc
nth_token-lt (t ∷ ts) zero e = omega arith
nth_token-lt (t ∷ ts) (suc i) e = omega (arith, nth_token-lt ts i e)

pub write_self :
    (w : Rf) (p : Ptr) (d : Device)
    → w.devices p ≡ some d
    → record w { devices = write w.devices p (some d) } ≡ w
unfolding write
write_self w p d e = ap (λ h. record w { devices = h }) (fun_ext λ a. ground arith)

pub count_down-rd : (w : Walk) → (count_down w).rd ≡ w.rd
count_down-rd w = ground arith

pub count_down-interface : (w : Walk) → (count_down w).interface ≡ w.interface
count_down-interface w = ground arith

pub count_down-grants : (w : Walk) → (count_down w).grants ≡ w.grants
count_down-grants w = ground arith

pub count_down-indev : (w : Walk) → (count_down w).indev ≡ w.indev
count_down-indev w = ground arith

module _ (decode : List ℕ → Option (List ℕ)) (gw : Ptr) (config : List ℕ) (tokens : List Token)
    (i : ℕ) (p : Ptr) (d : Device) where
  pub take_setting-effect :
      (k : Key) (text : List ℕ) (w : Walk) (st : Rf)
      → TextAt config tokens (i + 1) text
      → Stays decode (pair k text)
      → w.rd ≡ some p
      → Points st.devices p d
      → length w.interface ≡ max_iface_len
      → take_setting decode true gw config tokens i w (some k) st
        ≡ ok
            (i + 1, set_walk (pair k text) w)
            (record st {
              devices = write st.devices p (some (effect_device decode (pair k text) d));
            })
  unfolding take_setting text_of change put_key in_devices
  take_setting-effect Key.version text w st at stays e pd wide =
      rw
        (
          token_at-TextAt config tokens at st,
          text_of-TextAt config tokens at st,
          write_self st p d pd.holds,
        )
        refl
  take_setting-effect Key.gateway text w st at stays e pd wide = absurd stays
  take_setting-effect Key.iface text w st at stays e pd wide =
      rw
        (
          token_at-TextAt config tokens at st,
          text_of-TextAt config tokens at st,
          put_interface-interface_with w.interface text wide st,
          write_self st p d pd.holds,
        )
        refl
  take_setting-effect Key.id text w st at stays e pd wide =
      rw (token_at-TextAt config tokens at st, text_of-TextAt config tokens at st, e, modify-ok pd)
        refl
  take_setting-effect Key.bcast text w st at stays e pd wide =
      rw (token_at-TextAt config tokens at st, text_of-TextAt config tokens at st, e, modify-ok pd)
        refl
  take_setting-effect Key.secret text w st at (out, decoded, fits) e pd wide =
      let room : ltb (length text) (length out) ≡ false = ground arith in
      rw (token_at-TextAt config tokens at st, text_of-TextAt config tokens at st, decoded, room, e)
        (elim (Bool-cases (leb 32 (length out))) [
          | inl long ↦ rw (long, modify-ok pd) refl
          | inr short ↦ rw (short, modify-ok pd) refl
        ])
  take_setting-effect Key.devices text w st at stays e pd wide = absurd stays
