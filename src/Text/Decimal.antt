-- ===== src/Text/Decimal.antt =====
-- `u64::to_string` and `str::parse::<u64>`.
use trillium_cache.Prelude.{
  ℕ, zero, suc, ◌+◌, ◌*◌, ◌/◌, ◌%◌, ◌<◌, ◌≡◌, refl, ap, ◌∙◌, true, some, [], ◌∷◌, arith, All,
  Bool-cases, inl, inr, ltb,
}
use trillium_cache.Text.{Str, parse_digits, parse_u64, show_fuel, to_string, is_digit, u64_mod}

parse_digits-cons :
    (m n : ℕ) (s : Str)
    → m * 10 + n % 10 < u64_mod
    → parse_digits m ((b'0' + n % 10) ∷ s) ≡ parse_digits (m * 10 + n % 10) s
unfolding parse_digits
parse_digits-cons m n s h = ground arith

parse_digits-show_fuel :
    (f n : ℕ) (acc : Str)
    → n < f
    → n < u64_mod
    → parse_digits 0 (show_fuel f n acc) ≡ parse_digits n acc
unfolding show_fuel
parse_digits-show_fuel zero n acc h k = absurd (omega arith)
parse_digits-show_fuel (suc f) n acc h k = elim (Bool-cases (ltb n 10)) [
  | inl small ↦
      rw small
        (parse_digits-cons 0 n acc (ground arith) ∙ ap (λ m. parse_digits m acc) (ground arith))
  | inr big ↦ rw big (
      parse_digits-show_fuel f (n / 10) ((b'0' + n % 10) ∷ acc) (ground arith) (omega arith)
      ∙ parse_digits-cons (n / 10) n acc (omega arith)
      ∙ ap (λ m. parse_digits m acc) (omega arith))
]

abbrev pub Digits : Str → Type 0
Digits = All (λ c. is_digit c ≡ true)

is_digit-digit : (n : ℕ) → is_digit (b'0' + n % 10) ≡ true
unfolding is_digit
is_digit-digit n = ground arith

show_fuel-Digits : (f n : ℕ) (acc : Str) → Digits acc → Digits (show_fuel f n acc)
unfolding show_fuel
show_fuel-Digits zero n acc h = h
show_fuel-Digits (suc f) n acc h =
    let more : Digits ((b'0' + n % 10) ∷ acc) = (is_digit-digit n, h) in
    elim (Bool-cases (ltb n 10)) [
      | inl small ↦ rw small more
      | inr big ↦ rw big (show_fuel-Digits f (n / 10) ((b'0' + n % 10) ∷ acc) more)
    ]

pub to_string-Digits : (n : ℕ) → Digits (to_string n)
unfolding to_string
to_string-Digits n = show_fuel-Digits (suc n) n [] tt

show_fuel-ne-nil : (f n c : ℕ) (acc : Str) → (d : ℕ) × (s : Str) × (show_fuel f n (c ∷ acc) ≡ d ∷ s)
unfolding show_fuel
show_fuel-ne-nil zero n c acc = (c, acc, refl)
show_fuel-ne-nil (suc f) n c acc = elim (Bool-cases (ltb n 10)) [
  | inl small ↦ (b'0' + n % 10, c ∷ acc, rw small)
  | inr big ↦ rw big (show_fuel-ne-nil f (n / 10) (b'0' + n % 10) (c ∷ acc))
]

to_string-cons : (n : ℕ) → (d : ℕ) × (s : Str) × (to_string n ≡ d ∷ s)
unfolding to_string
to_string-cons n = elim (Bool-cases (ltb n 10)) [
  | inl small ↦ (b'0' + n % 10, [], rw small)
  | inr big ↦ rw big (show_fuel-ne-nil n (n / 10) (b'0' + n % 10) [])
]

-- Without a sign in front the parser reads digits.
parse_u64-digits :
    (d : ℕ) (s : Str) → is_digit d ≡ true → parse_u64 (d ∷ s) ≡ parse_digits 0 (d ∷ s)
unfolding parse_u64 is_digit
parse_u64-digits d [] h = refl
parse_u64-digits d (c ∷ s) h = ground arith

-- Every `u64` is read back from its decimal digits.
pub parse_u64-to_string : (n : ℕ) → n < u64_mod → parse_u64 (to_string n) ≡ some n
parse_u64-to_string n h =
    let (d, s, e) = to_string-cons n in
    let digits : Digits (d ∷ s) = rw e at (to_string-Digits n) in
    let read : parse_digits 0 (to_string n) ≡ some n =
      unfold to_string parse_digits in parse_digits-show_fuel (suc n) n [] (omega arith) h in
    rw e (parse_u64-digits d s digits.0 ∙ rw e at read)
