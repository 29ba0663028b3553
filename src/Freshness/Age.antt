-- ===== src/Freshness/Age.antt =====
-- How the age of a stored response grows, and when computing it panics.
use trillium_cache.Prelude.{
  ℕ, ◌+◌, ◌-◌, ◌*◌, ◌≤◌, ◌<◌, ◌≡◌, ◌↔◌, ◌⊎◌, Bool, true, false, Option, none, some, [], ◌∷◌, arith,
  unwrap_or, and_then, Option-cases, inl, inr, ap, ◌==◌, ◌||◌,
}
use trillium_cache.Text.{Str, parse_digits, parse_u64, u64_mod, trim, split}
use trillium_cache.Text.Pieces.{first_piece}
use trillium_cache.Time.{Duration, SystemTime, done, panic, duration_end}
use trillium_cache.Http.{Http, age}
use trillium_cache.Policy.{CachePolicy}
use trillium_cache.Freshness.{
  parse_age_value, age_header_value, current_age, max_age, time_to_live, is_stale, first_of_lines,
}

parse_digits-lt : (n : ℕ) (s : Str) (m : ℕ) → n < u64_mod → parse_digits n s ≡ some m → m < u64_mod
unfolding parse_digits
parse_digits-lt n [] m h e = ground arith
parse_digits-lt n (c ∷ s) m h e = ground (arith, parse_digits-lt (n * 10 + (c - b'0')) s m)

pub parse_u64-lt : (s : Str) (m : ℕ) → parse_u64 s ≡ some m → m < u64_mod
unfolding parse_u64
parse_u64-lt [] m e = cc
parse_u64-lt (c ∷ []) m e = parse_digits-lt 0 (c ∷ []) m (omega arith) e
parse_u64-lt (c ∷ d ∷ s) m e =
    ground (arith, parse_digits-lt 0 (c ∷ d ∷ s) m, parse_digits-lt 0 (d ∷ s) m)

parse_age_value-lt : (raw : Str) (m : ℕ) → parse_age_value raw ≡ some m → m < u64_mod
unfolding parse_age_value
parse_age_value-lt raw m e =
    elim (Option-cases (first_piece (split (λ c. c == b';' || c == b',') raw))) [
      | inl missing ↦ cc (ap (λ o. and_then o (λ s. parse_u64 (trim s))) missing)
      | inr (s, found) ↦ parse_u64-lt (trim s) m (rw found at e)
    ]

-- A number of seconds that is read as a `u64`, or zero.
secs_bound : (o : Option Str) → unwrap_or (and_then o parse_age_value) 0 < u64_mod
secs_bound none = omega arith
secs_bound (some raw) = elim (Option-cases (parse_age_value raw)) [
  | inl missing ↦ rw missing (omega arith)
  | inr (m, found) ↦ rw found (parse_age_value-lt raw m found)
]

module _ ⦃http : Http⦄ where
  open http use {get_values, known, as_str}

  age_header_value-lt : (p : CachePolicy) → age_header_value p < duration_end
  unfolding age_header_value
  age_header_value-lt p = omega (
    arith,
    secs_bound
        (and_then (and_then (get_values p.response_headers (known age)) first_of_lines) as_str),
  )

  -- Computing the age panics exactly when the `Age` header and the time in this cache together pass
  -- the range of `Duration`.
  pub current_age-eq-panic_iff :
      (p : CachePolicy) (now : SystemTime)
      → (current_age p now ≡ panic) ↔ (duration_end ≤ age_header_value p + (now - p.response_time))
  unfolding current_age
  current_age-eq-panic_iff p now = ground (arith, age_header_value-lt p)

  -- At the moment of the response the age is what the `Age` header says.
  pub current_age-at_response :
      (p : CachePolicy) → current_age p p.response_time ≡ done (age_header_value p)
  unfolding current_age
  current_age-at_response p = ground (arith, age_header_value-lt p)

  -- From the time of the response on, the age grows with the clock.
  pub current_age-add :
      (p : CachePolicy) (now : SystemTime) (d a b : Duration)
      → p.response_time ≤ now
      → current_age p now ≡ done a
      → current_age p (now + d) ≡ done b
      → b ≡ a + d
  unfolding current_age
  current_age-add p now d a b h e f = ground arith

  -- Once stale, a response stays stale.
  pub is_stale_mono :
      (p : CachePolicy) (now later : SystemTime) {b : Bool}
      → now ≤ later
      → is_stale p now ≡ done true
      → is_stale p later ≡ done b
      → b ≡ true
  unfolding is_stale current_age
  is_stale_mono p now later h e f = ground arith

  -- Either a response is stale, has no time to live and is at least as old as its lifetime, or it is
  -- fresh and its age and its time to live, which is positive, make up its lifetime.
  pub time_to_live-is_stale :
      (p : CachePolicy) (now : SystemTime) (a : Duration)
      → current_age p now ≡ done a
      → ((is_stale p now ≡ done true) × (time_to_live p now ≡ done 0) × (max_age p ≤ a))
        ⊎ ((is_stale p now ≡ done false)
            × (time_to_live p now ≡ done (max_age p - a))
            × (0 < max_age p - a)
            × (a + (max_age p - a) ≡ max_age p))
  unfolding is_stale time_to_live
  time_to_live-is_stale p now a e = ground arith
