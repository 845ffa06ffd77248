-- ===== src/Text.antt =====
-- What the program uses of Python's texts: `strip`, `split`, `partition`, `in` and `startswith`.
use Prim.Native.Char.{Char, code}
use Prim.Native.String.{◌++◌}
use text.Mathlib.Text.{find?}
use crafty_server_watcher.Common.{
  ℕ, String, Bool, true, false, not, ◌&&◌, ◌||◌, List, [], ◌∷◌, if◌then◌else◌, ◌==◌, ltb, leb,
  is_some, str_eq,
}

-- `str.isspace` of one character.
abbrev pub is_space : Char → Bool
is_space c =
    let n = code c in
    (leb 9 n && leb n 13)
    || (leb 28 n && leb n 32)
    || n == 0x85
    || n == 0xa0
    || n == 0x1680
    || (leb 0x2000 n && leb n 0x200a)
    || n == 0x2028
    || n == 0x2029
    || n == 0x202f
    || n == 0x205f
    || n == 0x3000

lstrip : String → String
lstrip String.[] = String.[]
lstrip (String.◌∷◌ c s) = let rest = lstrip s in if is_space c then rest else String.◌∷◌ c s

rstrip_more : Char → String → String
rstrip_more c String.[] = if is_space c then String.[] else String.◌∷◌ c String.[]
rstrip_more c (String.◌∷◌ d s) = String.◌∷◌ c (String.◌∷◌ d s)

rstrip : String → String
unfolding rstrip_more
rstrip String.[] = String.[]
rstrip (String.◌∷◌ c s) = rstrip_more c (rstrip s)

unfoldable pub strip : String → String
unfolding lstrip rstrip
strip s = rstrip (lstrip s)

-- `split()`, with the word that goes on.
words_on : String → String → List String
words_on word String.[] = if str_eq word "" then [] else word ∷ []
words_on word (String.◌∷◌ c s) =
    let next = words_on "" s in
    let more = words_on (word ++ String.◌∷◌ c String.[]) s in
    if not (is_space c) then more else if str_eq word "" then next else word ∷ next

unfoldable pub split : String → List String
unfolding words_on
split s = words_on "" s

-- `s.partition(sep)[0]` and `[2]`, for a separator of one character.
unfoldable pub before : ℕ → String → String
before sep String.[] = String.[]
before sep (String.◌∷◌ c s) =
    let rest = before sep s in if code c == sep then String.[] else String.◌∷◌ c rest

unfoldable pub behind : ℕ → String → String
behind sep String.[] = String.[]
behind sep (String.◌∷◌ c s) = let rest = behind sep s in if code c == sep then s else rest

-- `sep.join(texts)`
unfoldable pub join : String → List String → String
join sep [] = ""
join sep (s ∷ []) = s
join sep (s ∷ t ∷ rest) = s ++ sep ++ join sep (t ∷ rest)

-- `part in s`
abbrev pub contains : String → String → Bool
contains part s = is_some (find? s part)

-- `s.startswith(…)`, for one character.
abbrev pub begins : ℕ → String → Bool
begins n String.[] = false
begins n (String.◌∷◌ c s) = code c == n

abbrev pub is_ascii : String → Bool
is_ascii String.[] = true
is_ascii (String.◌∷◌ c s) = ltb (code c) 128 && is_ascii s
