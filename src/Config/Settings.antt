-- ===== src/Config/Settings.antt =====
-- The walk of config.c over the settings of one object, against what they are to do.
use rf_gateway.Base.{
  ℕ, ◌+◌, ◌-◌, ◌≤◌, ◌≡◌, refl, ap, ◌∙◌, true, false, ◌&&◌, Bool-cases, inl, inr, Option, none, some,
  List, [], ◌∷◌, arith, ◌==◌, if◌then◌else◌, ok, length, span, slice, slice-ok,
}
use rf_gateway.Rf.{Rf}
use rf_gateway.Config.{Key, all_keys, name_of, which_key}
use rf_gateway.Config.Tokens.{
  Token, is_string, is_object, same_text, nth_token, token_at, text_of, json_eq,
}

-- A key with its value, or a token that the chain of tests passes over.
pub data Setting : Type 0 where
  pair : Key → List ℕ → Setting
  other : Setting

-- The first key that a text is.
abbrev pub key_of : List ℕ → List Key → Option Key
key_of text [] = none
key_of text (k ∷ ks) =
    if length (name_of k) == length text && same_text text (name_of k)
    then some k
    else key_of text ks

module _ (config : List ℕ) (tokens : List Token) where
  -- Token `i` is there and has this text.
  pub record TextAt (i : ℕ) (text : List ℕ) : Type 0 where
    pub token : Token
    pub here : nth_token tokens i ≡ some token
    pub ends : token.end ≡ token.start + length text
    pub inside : token.start + length text ≤ length config
    pub bytes : span config token.start (length text) ≡ text

  -- Token `i` is none of the keys and no object.
  pub record PassedAt (i : ℕ) : Type 0 where
    pub text : List ℕ
    pub at : TextAt i text
    pub no_object : is_object at.token.kind ≡ false
    pub unknown : is_string at.token.kind ≡ true → key_of text all_keys ≡ none

  module _ {S : Type 0} {i : ℕ} {text : List ℕ} (at : TextAt i text) (s : S) where
    pub token_at-TextAt : token_at tokens i s ≡ ok at.token s
    unfolding token_at
    token_at-TextAt = rw at.here

    pub slice-TextAt : slice config at.token.start (length text) s ≡ ok text s
    slice-TextAt =
        slice-ok config at.token.start (length text) s at.inside ∙ ap (λ b. ok b s) at.bytes

    pub text_of-TextAt : text_of config at.token s ≡ ok text s
    unfolding text_of
    text_of-TextAt =
        let size : at.token.end - at.token.start ≡ length text = omega (arith, at.ends) in
        rw (size, slice-TextAt)

    json_eq-TextAt :
        (name : List ℕ)
        → json_eq config at.token name s
          ≡ ok (is_string at.token.kind && (length name == length text && same_text text name)) s
    unfolding json_eq
    json_eq-TextAt name =
        let size : at.token.end - at.token.start ≡ length text = omega (arith, at.ends) in
        rw size (elim (Bool-cases (is_string at.token.kind && length name == length text)) [
          | inl right ↦ rw (right, slice-TextAt) (ground arith)
          | inr wrong ↦ rw wrong (ground arith)
        ])

  pub which_key-key_of :
      {i : ℕ} {text : List ℕ} (at : TextAt i text) (ks : List Key) (st : Rf)
      → which_key config at.token ks st
        ≡ ok (if is_string at.token.kind then key_of text ks else none) st
  unfolding which_key
  which_key-key_of at [] st = ground arith
  which_key-key_of {text} at (k ∷ ks) st =
      let rest = which_key-key_of at ks st in
      rw (json_eq-TextAt at st (name_of k)) (elim (Bool-cases (is_string at.token.kind)) [
        | inr no_text ↦ rw no_text (rw no_text at rest)
        | inl is_text ↦
            elim (Bool-cases (length (name_of k) == length text && same_text text (name_of k))) [
              | inl hit ↦ rw (is_text, hit) refl
              | inr miss ↦ rw (is_text, miss) (rw is_text at rest)
            ]
      ])
