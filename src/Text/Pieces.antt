-- ===== src/Text/Pieces.antt =====
-- Trimming and splitting text whose characters are known.
use trillium_cache.Prelude.{
  ℕ, ◌≡◌, refl, Bool, true, false, Option, none, some, List, [], ◌∷◌, ◌++◌, arith, All, ◌==◌,
}
use trillium_cache.Text.{Str, trim, trim_end, is_whitespace, split, split_once, strip_suffix_char}

abbrev pub NoSpace : Str → Type 0
NoSpace = All (λ c. is_whitespace c ≡ false)

trim_end_id : (s : Str) → NoSpace s → trim_end s ≡ s
unfolding trim_end
trim_end_id [] h = refl
trim_end_id (c ∷ []) h = rw h.0
trim_end_id (c ∷ d ∷ s) h = rw (trim_end_id (d ∷ s) h.1)

pub trim_id : (s : Str) → NoSpace s → trim s ≡ s
unfolding trim
trim_id [] h = refl
trim_id (c ∷ s) h = rw (h.0, trim_end_id (c ∷ s) h)

abbrev pub first_piece : List Str → Option Str
first_piece [] = none
first_piece (s ∷ r) = some s

-- What may follow a piece: the end of the text, or a character to split at.
abbrev pub Ends : (ℕ → Bool) → Str → Type 0
Ends p [] = Unit
Ends p (c ∷ r) = p c ≡ true

pub first_piece-split :
    (p : ℕ → Bool) (s rest : Str)
    → All (λ c. p c ≡ false) s
    → Ends p rest
    → first_piece (split p (s ++ rest)) ≡ some s
unfolding split
first_piece-split p [] [] h e = refl
first_piece-split p [] (c ∷ r) h e = rw e
first_piece-split p (c ∷ s) rest h e = ground (arith, first_piece-split p s rest h.1 e, h.0)

trim_end-concat : (s : Str) (c : ℕ) → is_whitespace c ≡ false → trim_end (s ++ c ∷ []) ≡ s ++ c ∷ []
unfolding trim_end
trim_end-concat [] c h = rw h
trim_end-concat (x ∷ []) c h = rw h
trim_end-concat (x ∷ y ∷ s) c h = rw (trim_end-concat (y ∷ s) c h)

-- A text that neither begins nor ends with white space is trimmed already.
pub trim-concat :
    (d : ℕ) (s : Str) (c : ℕ)
    → is_whitespace d ≡ false
    → is_whitespace c ≡ false
    → trim (d ∷ (s ++ c ∷ [])) ≡ d ∷ (s ++ c ∷ [])
unfolding trim
trim-concat d s c g h = rw g (trim_end-concat (d ∷ s) c h)

pub split_once-append :
    (c : ℕ) (s rest : Str)
    → All (λ x. (x == c) ≡ false) s
    → split_once c (s ++ c ∷ rest) ≡ some (s, rest)
unfolding split_once
split_once-append c [] rest h = ground arith
split_once-append c (x ∷ s) rest h = rw (h.0, split_once-append c s rest h.1)

pub strip_suffix_char-concat : (c : ℕ) (s : Str) → strip_suffix_char c (s ++ c ∷ []) ≡ some s
unfolding strip_suffix_char
strip_suffix_char-concat c [] = ground arith
strip_suffix_char-concat c (x ∷ []) = ground (arith, strip_suffix_char-concat c [])
strip_suffix_char-concat c (x ∷ y ∷ s) = ground (arith, strip_suffix_char-concat c (y ∷ s))
