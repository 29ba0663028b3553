-- ===== src/Policy/Dictionary.antt =====
-- src/policy.rs: the check that a targeted field is a dictionary of structured fields.
use trillium_cache.Prelude.{
  Bool, false, not, ◌&&◌, ◌||◌, none, some, [], ◌∷◌, all, if◌then◌else◌, ◌==◌,
}
use trillium_cache.Text.{
  Str, trim, trim_end, split, split_once, is_ascii_alphabetic, is_ascii_alphanumeric, is_empty_str,
}

-- `is_valid_sf_key`
unfoldable pub is_valid_sf_key : Str → Bool
unfolding is_ascii_alphabetic is_ascii_alphanumeric
is_valid_sf_key [] = false
is_valid_sf_key (first ∷ chars) =
    if not (is_ascii_alphabetic first) && not (first == b'*')
    then false
    else all
        (λ c. is_ascii_alphanumeric c || (c == b'_' || (c == b'-' || (c == b'.' || c == b'*'))))
        chars

-- The test on each member of a dictionary.
unfoldable pub is_valid_member : Str → Bool
unfolding is_empty_str trim split_once is_valid_sf_key
is_valid_member member =
    let member = trim member in
    if is_empty_str member
    then false
    else is_valid_sf_key
        (trim_end (elim (split_once b'=' member) [ none ↦ member | some (k, v) ↦ k ]))

-- `looks_like_valid_sf_dictionary`
unfoldable pub looks_like_valid_sf_dictionary : Str → Bool
unfolding is_empty_str trim split is_valid_member
looks_like_valid_sf_dictionary s =
    let s = trim s in
    if is_empty_str s then false else all is_valid_member (split (λ c. c == b',') s)
