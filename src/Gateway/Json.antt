-- ===== src/Gateway/Json.antt =====
-- MarshalJSON and UnmarshalJSON of LetDD/uint128/uint128.go.
pub mod Numerals
use let_dx.Base.{ℕ, Bool, true, false, Option, none, some, List, [], ◌∷◌, ◌++◌, ◌==◌, if◌then◌else◌}
use let_dx.Gateway.Uint128.{Uint128, uint128_bytes}
use let_dx.Gateway.Response.{same, uint128_parse}

-- a double quote
abbrev pub quote : ℕ
quote = 34

-- MarshalJSON: `%q` of digits puts them between quotes
unfoldable pub marshal_json : Uint128 → List ℕ
marshal_json u = quote ∷ (uint128_bytes u ++ (quote ∷ []))

-- bytes.TrimPrefix and bytes.TrimSuffix, of one quote
unfoldable pub trim_prefix : List ℕ → List ℕ
trim_prefix [] = []
trim_prefix (c ∷ cs) = if c == quote then cs else c ∷ cs

unfoldable pub trim_suffix : List ℕ → List ℕ
trim_suffix [] = []
trim_suffix (c ∷ []) = if c == quote then [] else c ∷ []
trim_suffix (c ∷ d ∷ cs) = c ∷ trim_suffix (d ∷ cs)

-- UnmarshalJSON into a number; an error is `none`
unfoldable pub unmarshal_json : Uint128 → List ℕ → Option Uint128
unfolding trim_prefix trim_suffix
unmarshal_json u text =
    if same text (b'n' ∷ b'u' ∷ b'l' ∷ b'l' ∷ [])
    then some u
    else uint128_parse (trim_suffix (trim_prefix text)) 10
