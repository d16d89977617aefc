-- ===== src/Gateway/Response.antt =====
-- LetDD/tcp/response.go: the responses as the gateway reads them. A text is the list of its bytes, all of
-- them ASCII, as they are in every response of LetDB; an error of a parser is `none`.
pub mod Words
pub mod Received
use let_dx.Base.{
  ℕ, zero, suc, ◌+◌, ◌-◌, ◌*◌, ◌/◌, ◌%◌, ◌^◌, Bool, true, false, ◌&&◌, ◌||◌, Option, none, some,
  List, [], ◌∷◌, leb, ltb, ◌==◌, if◌then◌else◌,
}
use let_dx.Gateway.Uint128.{Uint128}

-- the structs that implement Response
pub data TcpResponse : Type 0 where
  magic : TcpResponse
  -- AccountID
  add_account : ℕ → TcpResponse
  -- Credits, Debits, Flags
  get_account : Uint128 → Uint128 → ℕ → TcpResponse
  -- Accounts, Transactions
  count_database : ℕ → ℕ → TcpResponse
  ok : TcpResponse
  -- Code
  error : ℕ → TcpResponse

-- a tab, a newline and the three behind it, and a space
abbrev pub is_space : ℕ → Bool
is_space c = leb 9 c && leb c 13 || c == b' '

unfoldable pub trim_left : List ℕ → List ℕ
trim_left [] = []
trim_left (c ∷ cs) = let rest = trim_left cs in if is_space c then rest else c ∷ cs

-- a byte in front of a text without spaces at its end
unfoldable pub trimmed : ℕ → List ℕ → List ℕ
trimmed c [] = if is_space c then [] else c ∷ []
trimmed c (d ∷ rest) = c ∷ d ∷ rest

unfoldable pub trim_right : List ℕ → List ℕ
unfolding trimmed
trim_right [] = []
trim_right (c ∷ cs) = trimmed c (trim_right cs)

-- bytes.TrimSpace
abbrev pub trim_space : List ℕ → List ℕ
trim_space cs = trim_right (trim_left cs)

-- a byte in front of the first word
unfoldable pub in_word : ℕ → List (List ℕ) → List (List ℕ)
in_word c [] = (c ∷ []) ∷ []
in_word c (word ∷ words) = (c ∷ word) ∷ words

-- bytes.Split at the spaces
unfoldable pub split : List ℕ → List (List ℕ)
unfolding in_word
split [] = [] ∷ []
split (c ∷ cs) = let rest = split cs in if c == b' ' then [] ∷ rest else in_word c rest

-- the value of a digit, which is 99 for no digit
unfoldable pub digit : ℕ → ℕ
digit c =
    if leb b'0' c && leb c b'9'
    then c - b'0'
    else if leb b'a' c && leb c b'z'
    then c - b'a' + 10
    else if leb b'A' c && leb c b'Z'
    then c - b'A' + 10
    else 99

-- the number that digits write, behind one already read
unfoldable pub numeral : ℕ → ℕ → List ℕ → Option ℕ
unfolding digit
numeral base acc [] = some acc
numeral base acc (c ∷ cs) =
    let rest = numeral base (acc * base + digit c) cs in if ltb (digit c) base then rest else none

unfoldable pub at_most : ℕ → Option ℕ → Option ℕ
at_most max none = none
at_most max (some n) = if ltb max n then none else some n

-- strconv.ParseUint in base 16, for a number of some bits
unfoldable pub parse_uint : List ℕ → ℕ → Option ℕ
unfolding numeral at_most
parse_uint [] bits = none
parse_uint (c ∷ cs) bits = at_most (2 ^ bits - 1) (numeral 16 0 (c ∷ cs))

-- big.Int: a number with its sign
pub data BigInt : Type 0 where
  positive negative : ℕ → BigInt

unfoldable pub signed : (ℕ → BigInt) → Option ℕ → Option BigInt
signed sign none = none
signed sign (some n) = some (sign n)

-- the digits behind the sign, of which there is one at least
unfoldable pub unsigned : ℕ → List ℕ → Option ℕ
unfolding numeral
unsigned base [] = none
unsigned base (c ∷ cs) = numeral base 0 (c ∷ cs)

-- big.Int.SetString in base 10 or 16
unfoldable pub set_string : ℕ → List ℕ → Option BigInt
unfolding signed unsigned
set_string base [] = none
set_string base (c ∷ cs) =
    if c == b'-'
    then signed negative (unsigned base cs)
    else signed positive (unsigned base (if c == b'+' then cs else c ∷ cs))

-- the two words of a number, unless it is above the largest: Rsh rounds down, And works on the two's
-- complement, and Uint64 takes the low word of the absolute value
unfoldable pub to_words : Option BigInt → Option Uint128
to_words none = none
to_words (some (positive n)) =
    if ltb (2 ^ 128 - 1) n then none else some (record { high = n / 2 ^ 64; low = n % 2 ^ 64 })
to_words (some (negative n)) =
    some
      (record { high = (n + (2 ^ 64 - 1)) / 2 ^ 64 % 2 ^ 64; low = (2 ^ 64 - n % 2 ^ 64) % 2 ^ 64 })

-- uint128.Parse
unfoldable pub uint128_parse : List ℕ → ℕ → Option Uint128
unfolding set_string to_words
uint128_parse [] base = none
uint128_parse (c ∷ cs) base = to_words (set_string base (c ∷ cs))

unfoldable pub same : List ℕ → List ℕ → Bool
same [] [] = true
same (a ∷ as') (b ∷ bs) = a == b && same as' bs
same _ _ = false

-- the results of the parsers, put together
unfoldable pub both : Option Uint128 → Option Uint128 → Option ℕ → Option TcpResponse
both (some credits) (some debits) (some flags) = some (get_account credits debits flags)
both _ _ _ = none

unfoldable pub counts : Option ℕ → Option ℕ → Option TcpResponse
counts (some accounts) (some transactions) = some (count_database accounts transactions)
counts _ _ = none

unfoldable pub one : (ℕ → TcpResponse) → Option ℕ → Option TcpResponse
one f none = none
one f (some n) = some (f n)

-- the `switch` on the kind, with the parameters behind it
unfoldable pub parse_kind : List ℕ → List (List ℕ) → Option TcpResponse
unfolding same both counts one parse_uint uint128_parse
parse_kind kind [] =
    if same kind (b'L' ∷ b'E' ∷ b'T' ∷ [])
    then some magic
    else if same kind (b'O' ∷ b'K' ∷ b'E' ∷ [])
    then some ok
    else none
parse_kind kind (a ∷ []) =
    if same kind (b'A' ∷ b'I' ∷ b'D' ∷ [])
    then one add_account (parse_uint a 64)
    else if same kind (b'E' ∷ b'R' ∷ b'R' ∷ [])
    then one error (parse_uint a 16)
    else none
parse_kind kind (a ∷ b ∷ []) =
    if same kind (b'L' ∷ b'E' ∷ b'N' ∷ []) then counts (parse_uint a 64) (parse_uint b 64) else none
parse_kind kind (a ∷ b ∷ c ∷ []) =
    if same kind (b'A' ∷ b'C' ∷ b'C' ∷ [])
    then both (uint128_parse a 16) (uint128_parse b 16) (parse_uint c 8)
    else none
parse_kind kind _ = none

unfoldable pub parse_words : List (List ℕ) → Option TcpResponse
unfolding parse_kind
parse_words [] = none
parse_words (kind ∷ parameters) = parse_kind kind parameters

unfoldable pub parse_trimmed : List ℕ → Option TcpResponse
unfolding split parse_words
parse_trimmed [] = none
parse_trimmed (c ∷ cs) = parse_words (split (c ∷ cs))

-- ParseResponse
unfoldable pub parse_response : List ℕ → Option TcpResponse
unfolding trim_left trim_right parse_trimmed
parse_response text = parse_trimmed (trim_space text)
