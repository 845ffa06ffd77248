-- ===== src/JsonText.antt =====
-- Python's `str` of a whole number, and `json.dumps(value, ensure_ascii=False)` of a value whose numbers
-- are whole, as those are that the program puts into its packets and replies.
use Prim.Native.Char.{Char, code}
use Prim.Native.String.{◌++◌}
use crafty_server_watcher.Common.{
  ℕ, zero, suc, ◌/◌, ◌%◌, String, true, false, if◌then◌else◌, ◌==◌, ltb, ℤ, pos, negsuc,
}
use crafty_server_watcher.Json.{
  Json, null, bool, num, str, arr, obj, Items, nil, cons, Fields, end, field, whole,
}

digit : ℕ → String
digit n =
    if n == 0
    then "0"
    else if n == 1
    then "1"
    else if n == 2
    then "2"
    else if n == 3
    then "3"
    else if n == 4
    then "4"
    else if n == 5
    then "5"
    else if n == 6
    then "6"
    else if n == 7
    then "7"
    else if n == 8
    then "8"
    else if n == 9
    then "9"
    else if n == 10
    then "a"
    else if n == 11
    then "b"
    else if n == 12
    then "c"
    else if n == 13
    then "d"
    else if n == 14
    then "e"
    else "f"

-- The digits of a number in front of `acc`: fuel above the number is enough, as each round divides it
-- by 10.
digits_on : ℕ → ℕ → String → String
unfolding digit
digits_on zero n acc = acc
digits_on (suc fuel) n acc =
    let acc' = digit (n % 10) ++ acc in
    let more = digits_on fuel (n / 10) acc' in if ltb n 10 then acc' else more

unfoldable pub str_of_int : ℤ → String
unfolding digits_on
str_of_int (pos n) = digits_on (suc n) n ""
str_of_int (negsuc n) = "-" ++ digits_on (suc (suc n)) (suc n) ""

-- A character of a text as JSON writes it.
escape_char : Char → String
unfolding digit
escape_char c =
    if code c == 34
    then "\\\""
    else if code c == 92
    then "\\\\"
    else if code c == 10
    then "\\n"
    else if code c == 13
    then "\\r"
    else if code c == 9
    then "\\t"
    else if code c == 12
    then "\\f"
    else if code c == 8
    then "\\b"
    else if ltb (code c) 32
    then "\\u00" ++ digit (code c / 16) ++ digit (code c % 16)
    else String.◌∷◌ c String.[]

escape : String → String
unfolding escape_char
escape String.[] = ""
escape (String.◌∷◌ c s) = escape_char c ++ escape s

quoted : String → String
unfolding escape
quoted s = "\"" ++ escape s ++ "\""

unfoldable mutual
  unfolding quoted str_of_int

  pub dumps : Json → String
  dumps null = "null"
  dumps (bool true) = "true"
  dumps (bool false) = "false"
  dumps (num n) = str_of_int (whole n)
  dumps (str s) = quoted s
  dumps (arr nil) = "[]"
  dumps (arr (cons v rest)) = "[" ++ dumps v ++ more_items rest
  dumps (obj end) = "{}"
  dumps (obj (field k v rest)) = "{" ++ quoted k ++ ": " ++ dumps v ++ more_fields rest

  pub more_items : Items → String
  more_items nil = "]"
  more_items (cons v rest) = ", " ++ dumps v ++ more_items rest

  pub more_fields : Fields → String
  more_fields end = "}"
  more_fields (field k v rest) = ", " ++ quoted k ++ ": " ++ dumps v ++ more_fields rest
