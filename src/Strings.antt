-- ===== src/Strings.antt =====
-- The functions of Go's `strings` and `strconv` that the program takes texts apart with: Split at one
-- character, Trim with a set of characters, TrimSpace, and Atoi.
use Prim.Native.Char.{Char, code}
use pbft_2pc.Prelude.{
  ℕ, ◌+◌, ◌-◌, ◌*◌, ◌%◌, ◌^◌, String, string_eq, nat_eq, Int64, Bool, true, false, ◌&&◌, ◌||◌, List,
  [], ◌∷◌, leb, ltb, contains, ◌==◌, if◌then◌else◌,
}

-- A character in front of the first part.
abbrev push : Char → List String → List String
push c [] = (String.◌∷◌ c "") ∷ []
push c (p ∷ ps) = (String.◌∷◌ c p) ∷ ps

-- `strings.Split(s, sep)`, for a separator of one character
abbrev pub split : Char → String → List String
split sep String.[] = "" ∷ []
split sep (String.◌∷◌ c s) =
    let rest = split sep s in if code c == code sep then "" ∷ rest else push c rest

-- `s <= t` on strings of UTF-8, whose bytes are in the order of their characters
abbrev pub string_leb : String → String → Bool
string_leb String.[] t = true
string_leb (String.◌∷◌ c s) String.[] = false
string_leb (String.◌∷◌ c s) (String.◌∷◌ d t) =
    let rest = string_leb s t in if code c == code d then rest else ltb (code c) (code d)

abbrev trim_left : (Char → Bool) → String → String
trim_left p String.[] = ""
trim_left p (String.◌∷◌ c s) = let rest = trim_left p s in if p c then rest else String.◌∷◌ c s

-- A character, unless it is to be cut and nothing is left behind it.
abbrev keep : (Char → Bool) → Char → String → String
keep p c String.[] = if p c then "" else String.◌∷◌ c ""
keep p c (String.◌∷◌ d s) = String.◌∷◌ c (String.◌∷◌ d s)

abbrev trim_right : (Char → Bool) → String → String
trim_right p String.[] = ""
trim_right p (String.◌∷◌ c s) = keep p c (trim_right p s)

-- `strings.TrimFunc`
abbrev trim_func : (Char → Bool) → String → String
trim_func p s = trim_right p (trim_left p s)

abbrev is_in : String → Char → Bool
is_in String.[] c = false
is_in (String.◌∷◌ d s) c = code c == code d || is_in s c

-- `strings.Trim(s, cutset)`
abbrev pub trim : String → String → String
trim s cutset = trim_func (is_in cutset) s

-- `unicode.IsSpace`
abbrev is_space : Char → Bool
is_space c =
    let k = code c in
    contains (32 ∷ 133 ∷ 160 ∷ 5760 ∷ 8232 ∷ 8233 ∷ 8239 ∷ 8287 ∷ 12288 ∷ []) k
    || (leb 9 k && leb k 13)
    || (leb 8192 k && leb k 8202)

abbrev pub trim_space : String → String
trim_space s = trim_func is_space s

abbrev is_digit : Char → Bool
is_digit c = leb 48 (code c) && leb (code c) 57

abbrev are_digits : String → Bool
are_digits String.[] = true
are_digits (String.◌∷◌ c s) = is_digit c && are_digits s

abbrev value_from : ℕ → String → ℕ
value_from acc String.[] = acc
value_from acc (String.◌∷◌ c s) = value_from (acc * 10 + (code c - 48)) s

abbrev is_number : String → Bool
is_number String.[] = false
is_number (String.◌∷◌ c s) = is_digit c && are_digits s

-- The value and `err == nil`: 0 where the text is no number, and the nearest bound out of range.
abbrev positive : String → Int64 × Bool
positive s =
    if is_number s
    then (if ltb (value_from 0 s) (2 ^ 63) then (value_from 0 s, true) else (2 ^ 63 - 1, false))
    else (0, false)

abbrev negative : String → Int64 × Bool
negative s =
    if is_number s
    then (if leb (value_from 0 s) (2 ^ 63)
        then ((2 ^ 64 - value_from 0 s) % 2 ^ 64, true)
        else (2 ^ 63, false))
    else (0, false)

-- `strconv.Atoi`
abbrev pub atoi : String → Int64 × Bool
atoi String.[] = (0, false)
atoi (String.◌∷◌ c s) =
    if code c == 45
    then negative s
    else if code c == 43
    then positive s
    else positive (String.◌∷◌ c s)
