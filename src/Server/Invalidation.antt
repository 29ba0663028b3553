-- ===== src/Server/Invalidation.antt =====
-- What is left in the storage after a request with an unsafe method.
use trillium_cache.Prelude.{
  ℕ, refl, ap, ◌∙◌, ◌⊎◌, inl, inr, Bool-cases, Option-cases, ◌≡◌, true, ◌||◌, Option, none, some,
  List, [],
}
use mathlib.Core.Path.{subst}
use trillium_cache.Text.{Str}
use trillium_cache.Policy.{CachePolicy, option_str_eq}
use trillium_cache.Validation.Variants.{option_str_eq_iff}
use trillium_cache.Http.{Http, KnownHeaderName, location, content_location}
use trillium_cache.Storage.{Urls, CacheKey}
use trillium_cache.Tee.Streams.{Streams as TeeStreams}
use trillium_cache.Storage.Traits.{CacheStorage, IsLawful, Payload}
use trillium_cache.Bodies.{HttpBodies}
use trillium_cache.Server.{Conn, invalidate_url, invalidate_target, same_host_target, after_unsafe}

module _ ⦃http : Http⦄ ⦃urls : Urls⦄ ⦃streams : TeeStreams⦄ ⦃bodies : HttpBodies⦄
    ⦃storage : CacheStorage streams.Body streams.Writer⦄
    {Holds : storage.Store → CacheKey → CachePolicy → Payload → Type 0}
    {accepted : streams.Writer → List ℕ} {target : streams.Writer → CacheKey × CachePolicy}
    {Gives : streams.Body → Payload → Type 0}
    (laws : IsLawful storage Holds accepted target Gives) where
  open http use {Status, Headers, get, head, get_str, known, is_success, is_redirection}
  open urls use {Url, join_url, host_str}
  open storage use {Store, get_entries, invalidate}
  open laws use {invalidate-clears, invalidate-keeps}

  -- Nothing is stored for `GET` or `HEAD` of a URL.
  abbrev pub IsCleared : Store → Url → Type 0
  IsCleared store url =
      (get_entries store (record { method = get; url = url }) ≡ [])
      × (get_entries store (record { method = head; url = url }) ≡ [])

  abbrev pub ClearedTarget : Store → Option Url → Type 0
  ClearedTarget store none = Unit
  ClearedTarget store (some target) = IsCleared store target

  invalidate_url-IsCleared : (store : Store) (url : Url) → IsCleared (invalidate_url store url) url
  unfolding invalidate_url
  invalidate_url-IsCleared store url =
      (invalidate-keeps _ _ _ (invalidate-clears store _), invalidate-clears _ _)

  keeps_url :
      (store : Store) (url other : Url)
      → IsCleared store other
      → IsCleared (invalidate_url store url) other
  unfolding invalidate_url
  keeps_url store url other h = (
    invalidate-keeps _ _ _ (invalidate-keeps _ _ _ h.0),
    invalidate-keeps _ _ _ (invalidate-keeps _ _ _ h.1),
  )

  keeps_target :
      (store : Store) (target : Option Url) (other : Url)
      → IsCleared store other
      → IsCleared (invalidate_target store target) other
  unfolding invalidate_target
  keeps_target store none other h = h
  keeps_target store (some target) other h = keeps_url store target other h

  keeps_ClearedTarget :
      (store : Store) (target other : Option Url)
      → ClearedTarget store other
      → ClearedTarget (invalidate_target store target) other
  keeps_ClearedTarget store target none h = tt
  keeps_ClearedTarget store target (some other) h = keeps_target store target other h

  invalidate_target-cleared :
      (store : Store) (target : Option Url) → ClearedTarget (invalidate_target store target) target
  unfolding invalidate_target
  invalidate_target-cleared store none = tt
  invalidate_target-cleared store (some target) = invalidate_url-IsCleared store target

  -- A header names a URL of the host of the request, as it is or relative to the URL of the request.
  abbrev pub Names : Headers → KnownHeaderName → Url → Url → Type 0
  Names headers name url target =
      (v : Str) × (get_str headers (known name) ≡ some v)
      × (join_url url v ≡ some target)
      × (host_str target ≡ host_str url)

  target_of_Names :
      (headers : Headers) (name : KnownHeaderName) (url target : Url)
      → Names headers name url target
      → same_host_target url (get_str headers (known name)) ≡ some target
  unfolding same_host_target
  target_of_Names headers name url target (v, e, f, same) =
      let test = (option_str_eq_iff (host_str target) (host_str url)).1 same in
      rw (e, same_host_target) (rw f (rw test refl))

  joined_none :
      (url : Url) (v : Str) (found : Option Url)
      → join_url url v ≡ found
      → ((target : Url) → join_url url v ≡ some target → ¬ (host_str target ≡ host_str url))
      → same_host_target url (some v) ≡ none
  unfolding same_host_target
  joined_none url v none e h = rw (e, same_host_target) refl
  joined_none url v (some target) e h =
      elim (Bool-cases (option_str_eq (host_str target) (host_str url))) [
        | inl f ↦ absurd (h target e ((option_str_eq_iff (host_str target) (host_str url)).0 f))
        | inr f ↦ rw (e, same_host_target) (rw f refl)
      ]

  target_none :
      (headers : Headers) (name : KnownHeaderName) (url : Url)
      → ((target : Url) → ¬ Names headers name url target)
      → same_host_target url (get_str headers (known name)) ≡ none
  unfolding same_host_target
  target_none headers name url h = elim (Option-cases (get_str headers (known name))) [
    | inl e ↦ rw (e, same_host_target) refl
    | inr (v, e) ↦
        ap (same_host_target url) e
        ∙ joined_none url v (join_url url v) refl (λ target f same. h target (v, e, f, same))
  ]

  IsCleared-of_Names :
      (store : Store) (headers : Headers) (name : KnownHeaderName) (url target : Url)
      → ClearedTarget store (same_host_target url (get_str headers (known name)))
      → Names headers name url target
      → IsCleared store target
  IsCleared-of_Names store headers name url target cleared names =
      subst (ClearedTarget store) (target_of_Names headers name url target names) cleared

  IsCleared-targets :
      (store : Store) (conn : Conn) (url : Url) (s : Status)
      → conn.status ≡ some s
      → (is_success s || is_redirection s) ≡ true
      → IsCleared (after_unsafe store conn url) url
        × ClearedTarget
            (after_unsafe store conn url)
            (same_host_target url (get_str conn.response_headers (known location)))
        × ClearedTarget
            (after_unsafe store conn url)
            (same_host_target url (get_str conn.response_headers (known content_location)))
  unfolding after_unsafe
  IsCleared-targets store conn url s e ok =
      rw (e, after_unsafe)
        (rw ok (
          keeps_target _ _ url (keeps_target _ _ url (invalidate_url-IsCleared store url)),
          keeps_ClearedTarget _ _ _ (invalidate_target-cleared _ _),
          invalidate_target-cleared _ _,
        ))

  -- After an unsafe method that succeeded or was redirected, nothing is stored for `GET` and `HEAD` of
  -- its URL, nor of what `Location` and `Content-Location` name on the same host; where they name
  -- nothing on the same host, nothing but `GET` and `HEAD` of the URL is invalidated.
  pub after_unsafe-IsCleared :
      (store : Store) (conn : Conn) (url : Url) (s : Status)
      → conn.status ≡ some s
      → (is_success s || is_redirection s) ≡ true
      → IsCleared (after_unsafe store conn url) url
        × ((target : Url)
            → Names conn.response_headers location url target
              ⊎ Names conn.response_headers content_location url target
            → IsCleared (after_unsafe store conn url) target)
        × (((target : Url)
              → (¬ Names conn.response_headers location url target)
                × (¬ Names conn.response_headers content_location url target))
            → after_unsafe store conn url
              ≡ invalidate
                  (invalidate store (record { method = get; url = url }))
                  (record { method = head; url = url }))
  unfolding after_unsafe invalidate_url invalidate_target
  after_unsafe-IsCleared store conn url s e ok =
      let (own, first, second) = IsCleared-targets store conn url s e ok in
      (
        own,
        λ target names. elim names [
          | inl n ↦ IsCleared-of_Names _ conn.response_headers location url target first n
          | inr n ↦ IsCleared-of_Names _ conn.response_headers content_location url target second n
        ],
        λ never.
            rw (e, after_unsafe)
              (rw ok (
                rw
                  (
                    target_none conn.response_headers location url (λ t. (never t).0),
                    target_none conn.response_headers content_location url (λ t. (never t).1),
                  )
                  refl)),
      )
