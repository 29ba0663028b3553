-- ===== src/Storage.antt =====
-- src/storage.rs: the key under which responses are stored. The traits of the file are in Storage.Traits.
pub mod Traits
pub mod Copy
pub mod Copied
pub mod Cap
pub mod Ledger
pub mod Teed
use trillium_cache.Prelude.{◌≡◌, ◌↔◌, Bool, true, ◌&&◌, arith, refl, Option}
use trillium_cache.Text.{Str}
use trillium_cache.Http.{Http}

-- `url::Url`
pub record Urls : Type 1 where
  pub Url : Type 0
  pub url_eq : Url → Url → Bool
  pub url_eq_iff : (a b : Url) → (url_eq a b ≡ true) ↔ (a ≡ b)
  pub parse_url : Str → Option Url
  pub join_url : Url → Str → Option Url
  pub host_str : Url → Option Str

module _ ⦃http : Http⦄ ⦃urls : Urls⦄ where
  open http use {Method, method_eq, method_eq_iff}
  open urls use {Url, url_eq, url_eq_iff}

  -- `CacheKey`
  pub record CacheKey : Type 0 where
    pub method : Method
    pub url : Url

  -- `==` on `CacheKey`
  unfoldable pub key_eq : CacheKey → CacheKey → Bool
  key_eq a b = method_eq a.method b.method && url_eq a.url b.url

  pub key_eq_refl : (a : CacheKey) → key_eq a a ≡ true
  unfolding key_eq
  key_eq_refl a =
      ground (arith, (method_eq_iff a.method a.method).1 refl, (url_eq_iff a.url a.url).1 refl)

  pub key_eq-equal : (a b : CacheKey) → key_eq a b ≡ true → a ≡ b
  unfolding key_eq
  key_eq-equal a b e =
      let m : a.method ≡ b.method = (method_eq_iff a.method b.method).0 (ground (arith, e)) in
      let u : a.url ≡ b.url = (url_eq_iff a.url b.url).0 (ground (arith, e)) in
      λ i. record { method = m i; url = u i }
