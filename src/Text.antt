-- ===== src/Text.antt =====
-- Strings, as the lists of their characters, with the functions of Rust's `str` that the cache
-- calls. A character is its code point.
pub mod Equality
pub mod Pieces
pub mod Decimal
use Prim.Native.Char.{code}
use Prim.Native.String.{String}
use trillium_cache.Prelude.{
  ◌≡◌, refl, ℕ, zero, suc, ◌+◌, ◌-◌, ◌*◌, ◌/◌, ◌%◌, ◌^◌, Bool, true, false, ◌&&◌, ◌||◌, Option,
  none, some, List, [], ◌∷◌, ◌++◌, ltb, leb, ◌==◌, if◌then◌else◌,
}

abbrev pub Str : Type 0
Str = List ℕ

-- The characters of a literal.
abbrev pub codes : String → Str
codes String.[] = []
codes (String.◌∷◌ c s) = code c ∷ codes s

-- `a == b` on strings
unfoldable pub str_eq : Str → Str → Bool
str_eq [] [] = true
str_eq (x ∷ a) (y ∷ b) = (x == y) && str_eq a b
str_eq _ _ = false

-- `char::is_whitespace`: the characters with the Unicode property White_Space
unfoldable pub is_whitespace : ℕ → Bool
is_whitespace c =
    (leb 9 c && leb c 13)
    || (c == 32)
    || (c == 0x85)
    || (c == 0xa0)
    || (c == 0x1680)
    || (leb 0x2000 c && leb c 0x200a)
    || (c == 0x2028)
    || (c == 0x2029)
    || (c == 0x202f)
    || (c == 0x205f)
    || (c == 0x3000)

-- `str::is_empty`
unfoldable pub is_empty_str : Str → Bool
is_empty_str [] = true
is_empty_str (c ∷ s) = false

-- `str::trim_start`
unfoldable pub trim_start : Str → Str
unfolding is_whitespace
trim_start [] = []
trim_start (c ∷ s) = let rest = trim_start s in if is_whitespace c then rest else c ∷ s

-- Drops the character if it is white space with nothing left behind it.
abbrev pub cons_trimmed : ℕ → Str → Str
cons_trimmed c [] = if is_whitespace c then [] else c ∷ []
cons_trimmed c (d ∷ s) = c ∷ d ∷ s

-- `str::trim_end`
unfoldable pub trim_end : Str → Str
unfolding is_whitespace
trim_end [] = []
trim_end (c ∷ s) = cons_trimmed c (trim_end s)

-- `str::trim`
unfoldable pub trim : Str → Str
unfolding trim_start trim_end
trim s = trim_end (trim_start s)

abbrev pub cons_first : ℕ → List Str → List Str
cons_first c [] = (c ∷ []) ∷ []
cons_first c (s ∷ r) = (c ∷ s) ∷ r

-- `str::split` at each character that passes the test; there is always a first piece.
unfoldable pub split : (ℕ → Bool) → Str → List Str
split p [] = [] ∷ []
split p (c ∷ s) = let rest = split p s in if p c then [] ∷ rest else cons_first c rest

-- `str::split_once` at a character: what stands before the first one and after it
unfoldable pub split_once : ℕ → Str → Option (Str × Str)
split_once c [] = none
split_once c (x ∷ s) =
    let rest = split_once c s in
    if x == c then some ([], s) else elim rest [ none ↦ none | some (a, b) ↦ some (x ∷ a, b) ]

-- `str::strip_prefix`
unfoldable pub strip_prefix : Str → Str → Option Str
strip_prefix [] s = some s
strip_prefix (c ∷ p) [] = none
strip_prefix (c ∷ p) (x ∷ s) = let rest = strip_prefix p s in if x == c then rest else none

-- `str::strip_suffix` at a character
unfoldable pub strip_suffix_char : ℕ → Str → Option Str
strip_suffix_char c [] = none
strip_suffix_char c (x ∷ []) = if x == c then some [] else none
strip_suffix_char c (x ∷ y ∷ s) = elim (strip_suffix_char c (y ∷ s)) [
  | none ↦ none
  | some r ↦ some (x ∷ r)
]

-- `str::starts_with`
unfoldable pub starts_with : Str → Str → Bool
unfolding strip_prefix
starts_with p s = elim (strip_prefix p s) [ none ↦ false | some _ ↦ true ]

-- `str::contains`, at the pattern
unfoldable pub contains : Str → Str → Bool
unfolding starts_with
contains p [] = starts_with p []
contains p (c ∷ s) = starts_with p (c ∷ s) || contains p s

-- `str::to_ascii_lowercase`
unfoldable pub to_ascii_lowercase : Str → Str
to_ascii_lowercase [] = []
to_ascii_lowercase (c ∷ s) = (if leb b'A' c && leb c b'Z' then c + 32 else c) ∷ to_ascii_lowercase s

unfoldable pub is_ascii_alphabetic : ℕ → Bool
is_ascii_alphabetic c = (leb b'a' c && leb c b'z') || (leb b'A' c && leb c b'Z')

unfoldable pub is_digit : ℕ → Bool
is_digit c = leb b'0' c && leb c b'9'

unfoldable pub is_ascii_alphanumeric : ℕ → Bool
unfolding is_ascii_alphabetic is_digit
is_ascii_alphanumeric c = is_ascii_alphabetic c || is_digit c

-- `[&str]::join`
unfoldable pub join : Str → List Str → Str
join sep [] = []
join sep (s ∷ []) = s
join sep (s ∷ t ∷ r) = s ++ (sep ++ join sep (t ∷ r))

abbrev pub u64_mod : ℕ
u64_mod = 2 ^ 64

-- The digits of a `u64` after those that make `n`; `none` on another character or an overflow.
unfoldable pub parse_digits : ℕ → Str → Option ℕ
unfolding is_digit
parse_digits n [] = some n
parse_digits n (c ∷ s) =
    let m = n * 10 + (c - b'0') in
    let rest = parse_digits m s in if is_digit c && ltb m u64_mod then rest else none

-- `str::parse::<u64>`: one `+` may stand in front, and there is at least one digit.
unfoldable pub parse_u64 : Str → Option ℕ
unfolding parse_digits
parse_u64 [] = none
parse_u64 (c ∷ []) = parse_digits 0 (c ∷ [])
parse_u64 (c ∷ d ∷ s) = if c == b'+' then parse_digits 0 (d ∷ s) else parse_digits 0 (c ∷ d ∷ s)

-- The decimal digits of a number in front of `acc`; each round takes one unit of fuel.
unfoldable pub show_fuel : ℕ → ℕ → Str → Str
show_fuel zero n acc = acc
show_fuel (suc f) n acc =
    let digit = b'0' + n % 10 in
    let rest = show_fuel f (n / 10) (digit ∷ acc) in if ltb n 10 then digit ∷ acc else rest

-- `u64::to_string`
unfoldable pub to_string : ℕ → Str
unfolding show_fuel
to_string n = show_fuel (suc n) n []
