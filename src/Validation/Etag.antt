-- ===== src/Validation/Etag.antt =====
-- src/validation.rs: the entity-tags of `If-None-Match` and the dates of `If-Modified-Since`.
pub mod Tags
pub mod Fuel
use trillium_cache.Prelude.{
  ℕ, zero, suc, Bool, true, false, Option, none, some, List, [], ◌∷◌, and_then, unwrap_or, any, leb,
  if◌then◌else◌, length,
}
use trillium_cache.Text.{
  Str, str_eq, codes, trim, trim_start, strip_prefix, strip_suffix_char, split_once,
}
use trillium_cache.Http.{Http}

abbrev pub weak_prefix : Str
weak_prefix = codes "W/"

abbrev pub quote : ℕ
quote = b'"'

-- `etag_opaque`
unfoldable pub etag_opaque : Str → Option Str
etag_opaque etag =
    let etag = trim etag in
    let etag = unwrap_or (strip_prefix weak_prefix etag) etag in
    and_then (strip_prefix (quote ∷ []) etag) (strip_suffix_char quote)

-- The inner loop of `iter_etag_opaques`: drops white space, commas and weak prefixes.
unfoldable pub skip_separators : ℕ → Str → Str
skip_separators zero s = s
skip_separators (suc fuel) s =
    let remaining = trim_start s in
    elim (strip_prefix (b',' ∷ []) remaining) [
      | some rest ↦ skip_separators fuel rest
      | none ↦ elim (strip_prefix weak_prefix remaining) [
        | some rest ↦ skip_separators fuel rest
        | none ↦ remaining
      ]
    ]

-- One call of the iterator: the next tag and what remains.
unfoldable pub next_opaque : Str → Option (Str × Str)
next_opaque s =
    and_then (strip_prefix (quote ∷ []) (skip_separators (suc (length s)) s)) (split_once quote)

unfoldable pub opaques_fuel : ℕ → Str → List Str
opaques_fuel zero s = []
opaques_fuel (suc fuel) s = elim (next_opaque s) [
  | none ↦ []
  | some (tag, remaining) ↦ tag ∷ opaques_fuel fuel remaining
]

-- `iter_etag_opaques`; each tag takes two characters, so the length is fuel enough.
unfoldable pub iter_etag_opaques : Str → List Str
iter_etag_opaques s = opaques_fuel (length s) s

-- `inm_matches`
unfoldable pub inm_matches : Str → Option Str → Bool
inm_matches if_none_match cached_etag =
    let inm = trim if_none_match in
    if str_eq inm (codes "*") then true else elim (and_then cached_etag etag_opaque) [
      | none ↦ false
      | some cached_opaque ↦ any (λ tag. str_eq tag cached_opaque) (iter_etag_opaques inm)
    ]

module _ ⦃http : Http⦄ where
  open http use {parse_http_date}

  -- `ims_matches`
  unfoldable pub ims_matches : Str → Option Str → Bool
  ims_matches if_modified_since cached_last_modified = elim (parse_http_date if_modified_since) [
    | none ↦ false
    | some ims ↦ elim (and_then cached_last_modified parse_http_date) [
      | none ↦ false
      | some lm ↦ leb lm ims
    ]
  ]
