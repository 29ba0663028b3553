-- ===== src/Freshness/AgeHeader.antt =====
-- The lenient reading of the `Age` header.
use trillium_cache.Prelude.{
  ℕ, ◌<◌, ◌≡◌, Bool, true, false, ◌||◌, some, [], ◌∷◌, ◌++◌, arith, All, ◌==◌,
}
use trillium_cache.Text.{Str, to_string, u64_mod, is_digit, is_whitespace}
use trillium_cache.Text.Pieces.{NoSpace, Ends, trim_id, first_piece-split}
use trillium_cache.Text.Decimal.{Digits, to_string-Digits, parse_u64-to_string}
use trillium_cache.Freshness.{parse_age_value}

abbrev pub separator : ℕ → Bool
separator c = c == b';' || c == b','

digit_no_space : (c : ℕ) → is_digit c ≡ true → is_whitespace c ≡ false
unfolding is_digit is_whitespace
digit_no_space c h = ground arith

digit_no_separator : (c : ℕ) → is_digit c ≡ true → separator c ≡ false
unfolding is_digit
digit_no_separator c h = ground arith

Digits-NoSpace : (s : Str) → Digits s → NoSpace s
Digits-NoSpace [] h = tt
Digits-NoSpace (c ∷ s) h = (digit_no_space c h.0, Digits-NoSpace s h.1)

Digits-no_separator : (s : Str) → Digits s → All (λ c. separator c ≡ false) s
Digits-no_separator [] h = tt
Digits-no_separator (c ∷ s) h = (digit_no_separator c h.0, Digits-no_separator s h.1)

-- A number of seconds in decimal is read back, alone or before a `;` or a `,` with any text behind.
pub parse_age_value-to_string :
    (n : ℕ) (rest : Str)
    → n < u64_mod
    → Ends separator rest
    → parse_age_value (to_string n ++ rest) ≡ some n
unfolding parse_age_value
parse_age_value-to_string n rest h e =
    rw
      (first_piece-split separator (to_string n) rest (Digits-no_separator _ (to_string-Digits n))
        e)
      (rw (trim_id (to_string n) (Digits-NoSpace _ (to_string-Digits n))) (parse_u64-to_string n h))
