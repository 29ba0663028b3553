-- ===== src/Validation/Variants.antt =====
-- `Vary`: the test by which a request selects a stored variant, and the one by which storage
-- replaces a variant.
use trillium_cache.Prelude.{
  ◌≡◌, ◌↔◌, refl, Bool, true, not, ◌&&◌, Option, none, some, List, [], ◌∷◌, map, any, arith,
  Option-cases, inl, inr,
}
use trillium_cache.Text.{Str, str_eq, codes, to_ascii_lowercase}
use trillium_cache.Text.Equality.{str_eq_iff, str_eq_refl}
use trillium_cache.Time.{SystemTime}
use trillium_cache.Http.{Http, vary}
use trillium_cache.Policy.{
  CacheOptions, VarySnapshot, new_policy, build_vary_snapshot, same_variant_as, option_str_eq,
  snapshot_eq, vary_names,
}
use trillium_cache.Validation.{vary_matches, snapshot_matches}

pub option_str_eq_comm : (a b : Option Str) → option_str_eq a b ≡ option_str_eq b a
unfolding option_str_eq
option_str_eq_comm none none = refl
option_str_eq_comm none (some b) = refl
option_str_eq_comm (some a) none = refl
option_str_eq_comm (some a) (some b) = ground (arith, str_eq_iff a b, str_eq_iff b a)

pub option_str_eq_iff : (a b : Option Str) → (option_str_eq a b ≡ true) ↔ (a ≡ b)
unfolding option_str_eq
option_str_eq_iff none none = ground arith
option_str_eq_iff none (some b) = ground arith
option_str_eq_iff (some a) none = ground arith
option_str_eq_iff (some a) (some b) = ground (arith, str_eq_iff a b)

-- A snapshot of `Vary: *`, which no request matches.
abbrev pub has_star : VarySnapshot → Bool
has_star snapshot = any (λ e. str_eq e.0 (codes "*")) snapshot

module _ ⦃http : Http⦄ where
  open http use {Method, Status, Headers, get_str, get_values, named, known}

  -- One entry of the snapshot.
  abbrev entry : Headers → Str → Str × Option Str
  entry h name = (to_ascii_lowercase name, get_str h (named (to_ascii_lowercase name)))

  snapshot_matches-map :
      (names : List Str) (h h' : Headers)
      → snapshot_matches (map (entry h) names) h' ≡ (
          not (has_star (map (entry h) names))
          && snapshot_eq (map (entry h) names) (map (entry h') names))
  unfolding snapshot_matches snapshot_eq
  snapshot_matches-map [] h h' = refl
  snapshot_matches-map (n ∷ names) h h' = ground (
    arith,
    snapshot_matches-map names h h',
    str_eq_refl (to_ascii_lowercase n),
    option_str_eq_comm (get_str h (named (to_ascii_lowercase n)))
        (get_str h' (named (to_ascii_lowercase n))),
  )

  snapshot_lem :
      (h h' rs : Headers)
      → snapshot_matches (build_vary_snapshot rs h) h' ≡ (
          not (has_star (build_vary_snapshot rs h))
          && snapshot_eq (build_vary_snapshot rs h) (build_vary_snapshot rs h'))
  unfolding build_vary_snapshot
  snapshot_lem h h' rs = elim (Option-cases (get_values rs (known vary))) [
    | inl missing ↦ rw (missing, build_vary_snapshot) (snapshot_matches-map [] h h')
    | inr (values, found) ↦
        rw (found, build_vary_snapshot) (snapshot_matches-map (vary_names values) h h')
  ]

  -- For responses with the same headers, a request selects the variant that was stored for another
  -- request exactly when storing the response for both would keep one variant only, and there is no
  -- `*` in `Vary`.
  pub vary_matches-same_variant_as :
      (method method' : Method) (h h' rs : Headers) (s s' : Status) (t t' : SystemTime)
      (o o' : CacheOptions)
      → vary_matches (new_policy method h s rs t o) h' ≡ (
          not (has_star (build_vary_snapshot rs h))
          && same_variant_as (new_policy method h s rs t o) (new_policy method' h' s' rs t' o'))
  unfolding vary_matches same_variant_as new_policy
  vary_matches-same_variant_as method method' h h' rs s s' t t' o o' = snapshot_lem h h' rs
