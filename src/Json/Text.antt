-- ===== src/Json/Text.antt =====
-- The texts of strings and numbers in JSON, as `JSON.stringify` writes them, and `Array.join`.
use Prim.Native.Char.{Char, code}
use Prim.Native.String.{slice}
use atel_sdk.Base.{
  ℕ, zero, suc, ◌+◌, ◌/◌, ◌%◌, String, List, [], ◌∷◌, concat, eqb, ltb, if◌then◌else◌,
}

unfoldable pub digit : ℕ → String
digit n = slice "0123456789abcdef" n (n + 1)

-- A character inside quotes: the short escapes, and `\u00XX` for the other control characters.
unfoldable pub escape_char : Char → String
unfolding digit
escape_char c =
    if eqb (code c) 34
    then "\\\""
    else if eqb (code c) 92
    then "\\\\"
    else if eqb (code c) 8
    then "\\b"
    else if eqb (code c) 9
    then "\\t"
    else if eqb (code c) 10
    then "\\n"
    else if eqb (code c) 12
    then "\\f"
    else if eqb (code c) 13
    then "\\r"
    else if ltb (code c) 32
    then concat "\\u00" (concat (digit (code c / 16)) (digit (code c % 16)))
    else String.◌∷◌ c String.[]

unfoldable pub escape : String → String
unfolding escape_char
escape String.[] = ""
escape (String.◌∷◌ c s) = concat (escape_char c) (escape s)

unfoldable pub quote : String → String
unfolding escape
quote s = concat "\"" (concat (escape s) "\"")

decimal_digits : ℕ → ℕ → String
unfolding digit
decimal_digits zero n = ""
decimal_digits (suc fuel) n =
    let front = decimal_digits fuel (n / 10) in
    if ltb n 10 then digit n else concat front (digit (n % 10))

-- One round for each digit: n + 1 rounds are enough.
unfoldable pub decimal : ℕ → String
unfolding decimal_digits
decimal n = decimal_digits (suc n) n

unfoldable pub join : String → List String → String
join sep [] = ""
join sep (x ∷ []) = x
join sep (x ∷ y ∷ xs) = concat x (concat sep (join sep (y ∷ xs)))
