-- ===== src/Tests/World.antt =====
-- A concrete instance of the external crates: header names are their lower-case texts, headers a list
-- of entries of which the first counts, and a date is its number of seconds.
use trillium_cache.Prelude.{
  ℕ, ◌≡◌, ◌∙◌, ap, refl, true, false, Option, none, some, List, [], ◌∷◌, arith, is_some, and_then,
  if◌then◌else◌, any, map, ==_iff, ◌==◌, Bool-cases, inl, inr, ◌*◌, ◌/◌, ◌||◌, ◌&&◌, leb,
}
use trillium_cache.Text.{Str, codes, to_ascii_lowercase, split, split_once, trim, parse_u64, str_eq}
use trillium_cache.Text.Equality.{str_eq_iff, str_eq_refl}
use trillium_cache.Time.{Duration, from_secs}
use trillium_cache.Http.{
  Http, KnownHeaderName, only, find_entry, IsDistinct, accept_ranges, age, authorization,
  cache_control, cdn_cache_control, connection, content_encoding, content_length, content_location,
  content_range, date, etag, expires, if_match, if_modified_since, if_none_match, if_range,
  if_unmodified_since, keep_alive, last_modified, location, pragma, proxy_authenticate,
  proxy_authorization, set_cookie, te, trailer, transfer_encoding, upgrade, vary,
}

abbrev pub wire_name : KnownHeaderName → Str
wire_name accept_ranges = codes "accept-ranges"
wire_name age = codes "age"
wire_name authorization = codes "authorization"
wire_name cache_control = codes "cache-control"
wire_name cdn_cache_control = codes "cdn-cache-control"
wire_name connection = codes "connection"
wire_name content_encoding = codes "content-encoding"
wire_name content_length = codes "content-length"
wire_name content_location = codes "content-location"
wire_name content_range = codes "content-range"
wire_name date = codes "date"
wire_name etag = codes "etag"
wire_name expires = codes "expires"
wire_name if_match = codes "if-match"
wire_name if_modified_since = codes "if-modified-since"
wire_name if_none_match = codes "if-none-match"
wire_name if_range = codes "if-range"
wire_name if_unmodified_since = codes "if-unmodified-since"
wire_name keep_alive = codes "keep-alive"
wire_name last_modified = codes "last-modified"
wire_name location = codes "location"
wire_name pragma = codes "pragma"
wire_name proxy_authenticate = codes "proxy-authenticate"
wire_name proxy_authorization = codes "proxy-authorization"
wire_name set_cookie = codes "set-cookie"
wire_name te = codes "te"
wire_name trailer = codes "trailer"
wire_name transfer_encoding = codes "transfer-encoding"
wire_name upgrade = codes "upgrade"
wire_name vary = codes "vary"

abbrev known_name : Str → Option KnownHeaderName
known_name s =
    if str_eq s (codes "accept-ranges")
    then some accept_ranges
    else (if str_eq s (codes "age")
        then some age
        else (if str_eq s (codes "authorization")
            then some authorization
            else (if str_eq s (codes "cache-control")
                then some cache_control
                else (if str_eq s (codes "cdn-cache-control")
                    then some cdn_cache_control
                    else (if str_eq s (codes "connection")
                        then some connection
                        else (if str_eq s (codes "content-encoding")
                            then some content_encoding
                            else (if str_eq s (codes "content-length")
                                then some content_length
                                else (if str_eq s (codes "content-location")
                                    then some content_location
                                    else (if str_eq s (codes "content-range")
                                        then some content_range
                                        else (if str_eq s (codes "date")
                                            then some date
                                            else (if str_eq s (codes "etag")
                                                then some etag
                                                else (if str_eq s (codes "expires")
                                                    then some expires
                                                    else (if str_eq s (codes "if-match")
                                                        then some if_match
                                                        else (if str_eq s
                                                            (codes "if-modified-since")
                                                            then some if_modified_since
                                                            else (if str_eq s
                                                            (codes "if-none-match")
                                                            then some if_none_match
                                                            else (if str_eq s (codes "if-range")
                                                            then some if_range
                                                            else (if str_eq s
                                                            (codes "if-unmodified-since")
                                                            then some if_unmodified_since
                                                            else (if str_eq s (codes "keep-alive")
                                                            then some keep_alive
                                                            else (if str_eq s
                                                            (codes "last-modified")
                                                            then some last_modified
                                                            else (if str_eq s (codes "location")
                                                            then some location
                                                            else (if str_eq s (codes "pragma")
                                                            then some pragma
                                                            else (if str_eq s
                                                            (codes "proxy-authenticate")
                                                            then some proxy_authenticate
                                                            else (if str_eq s
                                                            (codes "proxy-authorization")
                                                            then some proxy_authorization
                                                            else (if str_eq s (codes "set-cookie")
                                                            then some set_cookie
                                                            else (if str_eq s (codes "te")
                                                            then some te
                                                            else (if str_eq s (codes "trailer")
                                                            then some trailer
                                                            else (if str_eq s
                                                            (codes "transfer-encoding")
                                                            then some transfer_encoding
                                                            else (if str_eq s (codes "upgrade")
                                                            then some upgrade
                                                            else (if str_eq s (codes "vary")
                                                            then some vary
                                                            else (none))))))))))))))))))))))))))))))

known_name-wire_name : (n : KnownHeaderName) → known_name (wire_name n) ≡ some n
unfolding str_eq
known_name-wire_name accept_ranges = refl
known_name-wire_name age = refl
known_name-wire_name authorization = refl
known_name-wire_name cache_control = refl
known_name-wire_name cdn_cache_control = refl
known_name-wire_name connection = refl
known_name-wire_name content_encoding = refl
known_name-wire_name content_length = refl
known_name-wire_name content_location = refl
known_name-wire_name content_range = refl
known_name-wire_name date = refl
known_name-wire_name etag = refl
known_name-wire_name expires = refl
known_name-wire_name if_match = refl
known_name-wire_name if_modified_since = refl
known_name-wire_name if_none_match = refl
known_name-wire_name if_range = refl
known_name-wire_name if_unmodified_since = refl
known_name-wire_name keep_alive = refl
known_name-wire_name last_modified = refl
known_name-wire_name location = refl
known_name-wire_name pragma = refl
known_name-wire_name proxy_authenticate = refl
known_name-wire_name proxy_authorization = refl
known_name-wire_name set_cookie = refl
known_name-wire_name te = refl
known_name-wire_name trailer = refl
known_name-wire_name transfer_encoding = refl
known_name-wire_name upgrade = refl
known_name-wire_name vary = refl

pub wire_name_injective : (a b : KnownHeaderName) → wire_name a ≡ wire_name b → a ≡ b
wire_name_injective a b e = cc (known_name-wire_name a, known_name-wire_name b, ap known_name e)

abbrev pub Entries : Type 0
Entries = List (Str × List Str)

-- The entries without those of a name.
abbrev pub drop_name : Str → Entries → Entries
drop_name n [] = []
drop_name n ((m, v) ∷ r) = let rest = drop_name n r in if str_eq m n then rest else (m, v) ∷ rest

abbrev pub drop_names : Entries → List Str → Entries
drop_names h [] = h
drop_names h (n ∷ ns) = drop_names (drop_name n h) ns

-- The first entry of each name.
abbrev pub firsts : Entries → Entries
firsts [] = []
firsts ((n, v) ∷ r) = (n, v) ∷ drop_name n (firsts r)

pub find_entry-drop_name :
    (n m : Str) (h : Entries)
    → find_entry str_eq m (drop_name n h) ≡ (if str_eq n m then none else find_entry str_eq m h)
find_entry-drop_name n m [] = ground arith
find_entry-drop_name n m ((k, v) ∷ r) =
    ground (arith, find_entry-drop_name n m r, str_eq_iff k n, str_eq_iff k m, str_eq_iff n m)

pub find_entry-drop_names :
    (h : Entries) (ns : List Str) (m : Str)
    → find_entry str_eq m (drop_names h ns)
      ≡ (if any (λ n. str_eq n m) ns then none else find_entry str_eq m h)
find_entry-drop_names h [] m = refl
find_entry-drop_names h (n ∷ ns) m =
    ground (arith, find_entry-drop_names (drop_name n h) ns m, find_entry-drop_name n m h)

drop_name-IsDistinct :
    (n : Str) (h : Entries) → IsDistinct str_eq h → IsDistinct str_eq (drop_name n h)
drop_name-IsDistinct n [] d = tt
drop_name-IsDistinct n ((k, v) ∷ r) (e, d) = elim (Bool-cases (str_eq k n)) [
  | inl f ↦ rw f (drop_name-IsDistinct n r d)
  | inr f ↦ rw f (find_entry-drop_name n k r ∙ rw e (ground arith), drop_name-IsDistinct n r d)
]

pub find_entry-firsts :
    (h : Entries) (m : Str) → find_entry str_eq m (firsts h) ≡ find_entry str_eq m h
find_entry-firsts [] m = refl
find_entry-firsts ((n, v) ∷ r) m =
    ground (arith, find_entry-firsts r m, find_entry-drop_name n m (firsts r))

pub firsts-IsDistinct : (h : Entries) → IsDistinct str_eq (firsts h)
firsts-IsDistinct [] = tt
firsts-IsDistinct ((n, v) ∷ r) = (
  find_entry-drop_name n n (firsts r) ∙ rw (str_eq_refl n),
  drop_name-IsDistinct n (firsts r) (firsts-IsDistinct r),
)

-- A directive and its argument.
abbrev pub Directives : Type 0
Directives = List (Str × Option Str)

abbrev pub directive : Str → Str × Option Str
directive s = elim (split_once b'=' s) [
  | none ↦ (trim s, none)
  | some (name, argument) ↦ (trim name, some (trim argument))
]

abbrev pub directives_of : Str → Entries → Option Directives
directives_of n h =
    and_then (and_then (find_entry str_eq n h) only)
      (λ s. some (map directive (split (λ c. c == b',') s)))

abbrev pub argument : Str → Directives → Option (Option Str)
argument n h = find_entry str_eq n h

abbrev pub seconds : Str → Directives → Option Duration
seconds n h =
    and_then (and_then (argument n h) (λ a. and_then a parse_u64)) (λ s. some (from_secs s))

instance abbrev pub world : Http
world = record {
  Method = Str;
  method_eq = str_eq;
  method_eq_iff = str_eq_iff;
  get = codes "GET";
  head = codes "HEAD";
  post = codes "POST";
  is_safe = λ m. str_eq m (codes "GET") || str_eq m (codes "HEAD");
  Status = ℕ;
  status_eq = λ a b. a == b;
  status_eq_iff = ==_iff;
  status_code = λ s. s;
  not_modified = 304;
  is_success = λ s. leb 200 s && leb s 299;
  is_redirection = λ s. leb 300 s && leb s 399;
  is_server_error = λ s. leb 500 s && leb s 599;
  HeaderName = Str;
  name_eq = str_eq;
  name_eq_iff = str_eq_iff;
  known = wire_name;
  known_injective = wire_name_injective;
  named = to_ascii_lowercase;
  HeaderValue = Str;
  as_str = some;
  value = λ s. s;
  as_str-value = λ s. refl;
  Headers = Entries;
  new = [];
  get_values = λ h n. find_entry str_eq n h;
  get_str = λ h n. and_then (and_then (find_entry str_eq n h) only) some;
  has_header = λ h n. is_some (find_entry str_eq n h);
  insert = λ h n v. (n, v) ∷ h;
  remove = λ h n. drop_name n h;
  remove_all = drop_names;
  iter = firsts;
  get_values-new = λ n. refl;
  get_values-insert = λ h n m v. refl;
  get_values-remove = λ h n m. find_entry-drop_name n m h;
  get_values-remove_all = find_entry-drop_names;
  find_entry-iter = λ h n. find_entry-firsts h n;
  iter-IsDistinct = firsts-IsDistinct;
  get_str_lem = λ h n. refl;
  has_header_lem = λ h n. refl;
  CacheControlHeader = Directives;
  cache_control_of = directives_of (codes "cache-control");
  cdn_cache_control_of = directives_of (codes "cdn-cache-control");
  no_cache_header = (codes "no-cache", none) ∷ [];
  is_empty = λ h. elim h [ [] ↦ true | _ ∷ _ ↦ false ];
  is_no_cache = λ h. is_some (argument (codes "no-cache") h);
  is_no_store = λ h. is_some (argument (codes "no-store") h);
  is_private = λ h. is_some (argument (codes "private") h);
  is_public = λ h. is_some (argument (codes "public") h);
  is_immutable = λ h. is_some (argument (codes "immutable") h);
  is_proxy_revalidate = λ h. is_some (argument (codes "proxy-revalidate") h);
  must_revalidate = λ h. is_some (argument (codes "must-revalidate") h);
  max_age = seconds (codes "max-age");
  s_maxage = seconds (codes "s-maxage");
  max_stale = λ h.
      and_then (argument (codes "max-stale") h)
        (λ a. some (and_then (and_then a parse_u64) (λ s. some (from_secs s))));
  min_fresh = seconds (codes "min-fresh");
  stale_while_revalidate = seconds (codes "stale-while-revalidate");
  stale_if_error = seconds (codes "stale-if-error");
  Ratio = ℕ;
  ratio_of_secs = λ percent s. s * percent / 100;
  parse_http_date = λ s. and_then (parse_u64 s) (λ n. some (from_secs n));
}
