-- ===== src/Http/Laws.antt =====
-- Laws of headers at known names, in the form that rewriting uses.
use trillium_cache.Prelude.{
  ℕ, ◌≡◌, refl, sym, ap, Bool, true, false, none, some, List, [], ◌∷◌, arith, and_then,
  if◌then◌else◌, ◌==◌, ==_iff, get_elem?,
}
use trillium_cache.Http.{
  Http, KnownHeaderName, only, accept_ranges, age, authorization, cache_control, cdn_cache_control,
  connection, content_encoding, content_length, content_location, content_range, date, etag,
  expires, if_match, if_modified_since, if_none_match, if_range, if_unmodified_since, keep_alive,
  last_modified, location, pragma, proxy_authenticate, proxy_authorization, set_cookie, te, trailer,
  transfer_encoding, upgrade, vary,
}

-- The position of a name in `all_names`.
abbrev pub index : KnownHeaderName → ℕ
index accept_ranges = 0
index age = 1
index authorization = 2
index cache_control = 3
index cdn_cache_control = 4
index connection = 5
index content_encoding = 6
index content_length = 7
index content_location = 8
index content_range = 9
index date = 10
index etag = 11
index expires = 12
index if_match = 13
index if_modified_since = 14
index if_none_match = 15
index if_range = 16
index if_unmodified_since = 17
index keep_alive = 18
index last_modified = 19
index location = 20
index pragma = 21
index proxy_authenticate = 22
index proxy_authorization = 23
index set_cookie = 24
index te = 25
index trailer = 26
index transfer_encoding = 27
index upgrade = 28
index vary = 29

abbrev all_names : List KnownHeaderName
all_names =
    accept_ranges ∷ age ∷ authorization ∷ cache_control ∷ cdn_cache_control ∷ connection
    ∷ content_encoding ∷ content_length ∷ content_location ∷ content_range ∷ date ∷ etag ∷ expires
    ∷ if_match ∷ if_modified_since ∷ if_none_match ∷ if_range ∷ if_unmodified_since ∷ keep_alive
    ∷ last_modified ∷ location ∷ pragma ∷ proxy_authenticate ∷ proxy_authorization ∷ set_cookie ∷ te
    ∷ trailer ∷ transfer_encoding ∷ upgrade ∷ vary ∷ []

get_elem?-index : (n : KnownHeaderName) → get_elem? all_names (index n) ≡ some n
get_elem?-index accept_ranges = refl
get_elem?-index age = refl
get_elem?-index authorization = refl
get_elem?-index cache_control = refl
get_elem?-index cdn_cache_control = refl
get_elem?-index connection = refl
get_elem?-index content_encoding = refl
get_elem?-index content_length = refl
get_elem?-index content_location = refl
get_elem?-index content_range = refl
get_elem?-index date = refl
get_elem?-index etag = refl
get_elem?-index expires = refl
get_elem?-index if_match = refl
get_elem?-index if_modified_since = refl
get_elem?-index if_none_match = refl
get_elem?-index if_range = refl
get_elem?-index if_unmodified_since = refl
get_elem?-index keep_alive = refl
get_elem?-index last_modified = refl
get_elem?-index location = refl
get_elem?-index pragma = refl
get_elem?-index proxy_authenticate = refl
get_elem?-index proxy_authorization = refl
get_elem?-index set_cookie = refl
get_elem?-index te = refl
get_elem?-index trailer = refl
get_elem?-index transfer_encoding = refl
get_elem?-index upgrade = refl
get_elem?-index vary = refl

index_injective : (a b : KnownHeaderName) → index a ≡ index b → a ≡ b
index_injective a b e = cc (get_elem?-index a, get_elem?-index b, ap (get_elem? all_names) e)

pub Bool-eq_of_iff : (a b : Bool) → (a ≡ true → b ≡ true) → (b ≡ true → a ≡ true) → a ≡ b
Bool-eq_of_iff true b f g = sym (f refl)
Bool-eq_of_iff false true f g = g refl
Bool-eq_of_iff false false f g = refl

module _ ⦃http : Http⦄ where
  open http use {
    HeaderName, HeaderValue, Headers, name_eq, name_eq_iff, known, known_injective, as_str,
    get_values, get_str, has_header, insert, remove, remove_all, new, get_values-new,
    get_values-insert, get_values-remove, get_values-remove_all, get_str_lem, has_header_lem,
  }

  pub name_eq_refl : (n : HeaderName) → name_eq n n ≡ true
  name_eq_refl n = (name_eq_iff n n).1 refl

  pub name_eq-known : (a b : KnownHeaderName) → name_eq (known a) (known b) ≡ (index a == index b)
  name_eq-known a b =
      Bool-eq_of_iff _ _
        (λ e.
          (==_iff _ _).1 (ap index (known_injective a b ((name_eq_iff (known a) (known b)).0 e))))
        (λ e. (name_eq_iff _ _).1 (ap known (index_injective a b ((==_iff _ _).0 e))))

  pub get_str-insert :
      (h : Headers) (n m : HeaderName) (v : List HeaderValue)
      → get_str (insert h n v) m ≡ (if name_eq n m then and_then (only v) as_str else get_str h m)
  get_str-insert h n m v = simp (get_str_lem, get_values-insert) (ground arith)

  pub has_header-insert :
      (h : Headers) (n m : HeaderName) (v : List HeaderValue)
      → has_header (insert h n v) m ≡ (if name_eq n m then true else has_header h m)
  has_header-insert h n m v = simp (has_header_lem, get_values-insert) (ground arith)

  pub get_str-remove :
      (h : Headers) (n m : HeaderName)
      → get_str (remove h n) m ≡ (if name_eq n m then none else get_str h m)
  get_str-remove h n m = simp (get_str_lem, get_values-remove) (ground arith)

  pub has_header-remove :
      (h : Headers) (n m : HeaderName)
      → has_header (remove h n) m ≡ (if name_eq n m then false else has_header h m)
  has_header-remove h n m = simp (has_header_lem, get_values-remove) (ground arith)

-- Looking up a known name after inserting or removing a known name.
pub ruleset header_laws = (
  name_eq_refl, name_eq-known, get_str-insert, has_header-insert, get_str-remove, has_header-remove,
)
