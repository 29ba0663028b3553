-- ===== src/Text/Equality.antt =====
-- The equality test on strings decides equality.
use trillium_cache.Prelude.{◌≡◌, ◌↔◌, refl, true, ◌∷◌, arith}
use trillium_cache.Text.{Str, str_eq}

pub str_eq_iff : (a b : Str) → (str_eq a b ≡ true) ↔ (a ≡ b)
unfolding str_eq
str_eq_iff (x ∷ a) (y ∷ b) = ground (arith, str_eq_iff a b)
str_eq_iff _ _ = ground arith

pub str_eq_refl : (a : Str) → str_eq a a ≡ true
str_eq_refl a = (str_eq_iff a a).1 refl
