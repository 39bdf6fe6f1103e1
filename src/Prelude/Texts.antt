-- ===== src/Prelude/Texts.antt =====
-- The methods of a Python `str` that the components call, on the characters of a text.
use Prim.Native.Nat.{ℕ, zero, suc, ◌/◌, ◌%◌}
use Prim.Native.String.{String, ◌++◌}
use Prim.Native.Char.{Char, code}
use mathlib.Core.Bool.{Bool, ◌&&◌, ◌||◌}
use mathlib.Core.List.{List, [], ◌∷◌}
use text.Mathlib.Text.{◌==◌ as str_eq}
use llm_service.Prelude.Tests.{if◌then◌else◌, leb, ◌==◌}

-- `c.isspace()`
abbrev pub is_space : Char → Bool
is_space c =
    let n = code c in
    (leb 9 n && leb n 13)
    || (leb 28 n && leb n 32)
    || n == 133
    || n == 160
    || n == 5_760
    || (leb 8_192 n && leb n 8_202)
    || n == 8_232
    || n == 8_233
    || n == 8_239
    || n == 8_287
    || n == 12_288

-- `text.rstrip()`
abbrev pub rstrip : String → String
rstrip String.[] = ""
rstrip (String.◌∷◌ c s) =
    let rest = rstrip s in if str_eq rest "" && is_space c then "" else String.◌∷◌ c rest

-- `text.lstrip()`
abbrev pub lstrip : String → String
lstrip String.[] = ""
lstrip (String.◌∷◌ c s) = if is_space c then lstrip s else String.◌∷◌ c s

-- `text.strip()`
abbrev pub strip : String → String
strip s = rstrip (lstrip s)

-- a character before the first of some pieces
abbrev pub before_first : Char → List String → List String
before_first c [] = String.◌∷◌ c "" ∷ []
before_first c (p ∷ ps) = String.◌∷◌ c p ∷ ps

-- `text.split(sep)`, where `sep` is the one character of the number `sep`
abbrev pub split_on : ℕ → String → List String
split_on sep String.[] = "" ∷ []
split_on sep (String.◌∷◌ c s) =
    let rest = split_on sep s in if code c == sep then "" ∷ rest else before_first c rest

-- `sep.join(pieces)`
abbrev pub join_with : String → List String → String
join_with sep [] = ""
join_with sep (p ∷ []) = p
join_with sep (p ∷ q ∷ qs) = p ++ sep ++ join_with sep (q ∷ qs)

-- `text[:n]`
abbrev pub first_chars : ℕ → String → String
first_chars zero s = ""
first_chars (suc n) String.[] = ""
first_chars (suc n) (String.◌∷◌ c s) = String.◌∷◌ c (first_chars n s)

-- `text[n:]`
abbrev pub drop_chars : ℕ → String → String
drop_chars zero s = s
drop_chars (suc n) String.[] = ""
drop_chars (suc n) (String.◌∷◌ c s) = drop_chars n s

abbrev digit : ℕ → String
digit n =
    if n == 0
    then "0"
    else if n == 1
    then "1"
    else if n == 2
    then "2"
    else if n == 3
    then "3"
    else if n == 4
    then "4"
    else if n == 5
    then "5"
    else if n == 6
    then "6"
    else if n == 7
    then "7"
    else if n == 8
    then "8"
    else "9"

-- the digits of a number, at most as many as the fuel
abbrev decimal_on : ℕ → ℕ → String
decimal_on zero n = ""
decimal_on (suc fuel) n =
    let rest = decimal_on fuel (n / 10) in if leb n 9 then digit n else rest ++ digit (n % 10)

-- `str(n)`: a number has at most 19 digits, as a Python number of milliseconds
abbrev pub decimal : ℕ → String
decimal n = decimal_on 19 n

-- the pieces of a text between spaces, after a piece that is begun
abbrev words_from : String → String → List String
words_from piece String.[] = if str_eq piece "" then [] else piece ∷ []
words_from piece (String.◌∷◌ c s) =
    let ended = words_from "" s in
    let longer = words_from (piece ++ String.◌∷◌ c "") s in
    if is_space c then (if str_eq piece "" then ended else piece ∷ ended) else longer

-- `text.split()`
abbrev pub words : String → List String
words s = words_from "" s
