-- ===== src/Config/Tokens.antt =====
-- The tokens that `jsmn_parse` gives, and how config.c reads them.
use rf_gateway.Base.{
  ℕ, zero, suc, ◌-◌, Bool, true, false, ◌&&◌, Option, none, some, List, [], ◌∷◌, ◌==◌,
  if◌then◌else◌, fault, Cmd, pure, ◌>>=◌, length, slice,
}

-- `jsmntype_t` and `jsmntok_t`
pub data Kind : Type 0 where
  undefined object array string primitive : Kind

pub record Token : Type 0 where
  pub kind : Kind
  pub start : ℕ
  pub end : ℕ
  pub size : ℕ

abbrev pub is_string : Kind → Bool
is_string Kind.string = true
is_string _ = false

abbrev pub is_object : Kind → Bool
is_object Kind.object = true
is_object _ = false

unfoldable pub same_text : List ℕ → List ℕ → Bool
same_text [] [] = true
same_text [] (d ∷ ds) = false
same_text (c ∷ cs) [] = false
same_text (c ∷ cs) (d ∷ ds) = c == d && same_text cs ds

-- The bytes that `strndup` and `strncpy` read, up to a zero.
unfoldable pub before_zero : List ℕ → List ℕ
before_zero [] = []
before_zero (c ∷ cs) = if c == 0 then [] else c ∷ before_zero cs

abbrev pub nth_token : List Token → ℕ → Option Token
nth_token [] i = none
nth_token (t ∷ ts) zero = some t
nth_token (t ∷ ts) (suc i) = nth_token ts i

module _ {S : Type 0} where
  present : Option Token → Cmd S Token
  present none = λ _. fault
  present (some t) = pure t

  -- `tok[i]`; what lies behind the tokens of the text has no value.
  unfoldable pub token_at : List Token → ℕ → Cmd S Token
  unfolding present
  token_at tokens i = present (nth_token tokens i)

  -- The text of a token.
  unfoldable pub text_of : (config : List ℕ) → Token → Cmd S (List ℕ)
  text_of config t = slice config t.start (t.end - t.start)

  -- `jsoneq(json, tok, s) == 0`
  unfoldable pub json_eq : (json : List ℕ) → Token → (s : List ℕ) → Cmd S Bool
  unfolding text_of same_text
  json_eq json tok s =
      if is_string tok.kind && length s == tok.end - tok.start
      then (do text ← text_of json tok; pure (same_text text s))
      else pure false
