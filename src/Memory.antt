-- ===== src/Memory.antt =====
-- src/memory.rs: the storage in memory, over the concurrent map of the crate moka. A body is the list
-- of its bytes.
pub mod Moka
pub mod Buckets
pub mod Refresh
pub mod Reach
pub mod Replay
pub mod Storage
pub mod Promises
use trillium_cache.Prelude.{
  ℕ, zero, suc, ◌+◌, ◌-◌, ◌*◌, ◌^◌, Bool, true, false, not, ◌&&◌, Option, none, some, List, [], ◌∷◌,
  ◌++◌, keep, map, length, min, leb, if◌then◌else◌, is_some,
}
use trillium_cache.Time.{Duration}
use trillium_cache.Http.{Http}
use trillium_cache.Policy.{CachePolicy, same_variant_as}
use trillium_cache.Storage.{Urls, CacheKey, key_eq}
use Moka.{MokaCache, Op, nop, put}

-- the first bytes of a list, and those behind them
abbrev pub take {ℓ} : {A : Type ℓ} → ℕ → List A → List A
take n [] = []
take zero (x ∷ xs) = []
take (suc n) (x ∷ xs) = x ∷ take n xs

abbrev pub drop {ℓ} : {A : Type ℓ} → ℕ → List A → List A
drop n [] = []
drop zero (x ∷ xs) = x ∷ xs
drop (suc n) (x ∷ xs) = drop n xs

-- `DEFAULT_MAX_CAPACITY_BYTES`
abbrev pub default_max_capacity_bytes : ℕ
default_max_capacity_bytes = 256 * 1024 * 1024

abbrev pub u32_max : ℕ
u32_max = 2 ^ 32 - 1

module _ ⦃http : Http⦄ where
  open http use {Headers}

  -- `Variant`
  pub record Variant : Type 0 where
    pub policy : CachePolicy
    pub body : List ℕ
    pub trailers : Option Headers

  -- `Bucket`
  abbrev pub Bucket : Type 0
  Bucket = List Variant

  abbrev pub body_total : Bucket → ℕ
  body_total [] = 0
  body_total (v ∷ bucket) = length v.body + body_total bucket

  -- `weigh_bucket`
  unfoldable pub weigh_bucket : Bucket → ℕ
  weigh_bucket bucket =
      let total = body_total bucket in if leb total u32_max then total else u32_max

  -- the closure of `InMemoryPutHandle::finalize`: the new variant replaces those that are the same
  unfoldable pub insert_variant : Variant → Option Bucket → Bucket
  insert_variant new_variant maybe_entry =
      let variants : Bucket = elim maybe_entry [ some bucket ↦ bucket | none ↦ [] ] in
      keep (λ v. not (same_variant_as v.policy new_variant.policy)) variants ++ new_variant ∷ []

  -- the loop of `refresh_policy`: the first variant that is the same gets the policy; `updated` says
  -- whether it has been found
  unfoldable pub replace_policy : CachePolicy → Bool → Bucket → Bucket × Bool
  replace_policy new_policy updated [] = ([], updated)
  replace_policy new_policy updated (v ∷ bucket) =
      let found = not updated && same_variant_as v.policy new_policy in
      let (rest, end) = replace_policy new_policy (if found then true else updated) bucket in
      ((if found then record v { policy = new_policy } else v) ∷ rest, end)

  -- the closure of `refresh_policy`
  unfoldable pub refresh_bucket : CachePolicy → Option Bucket → Op Bucket
  refresh_bucket new_policy none = nop
  refresh_bucket new_policy (some bucket) =
      let (new_variants, updated) = replace_policy new_policy false bucket in
      if updated then put new_variants else nop

  -- `ReplayBodySource`
  pub record ReplayBodySource : Type 0 where
    pub body : List ℕ
    pub position : ℕ
    pub trailers : Option Headers

  -- `ReplayBodySource::poll_read` into a buffer of the given length: the bytes that it gets; the
  -- position never passes the length, so the subtraction does not stop at zero
  unfoldable pub read_replay : ReplayBodySource → ℕ → List ℕ × ReplayBodySource
  read_replay source buf_len =
      let n = min (length source.body - source.position) buf_len in
      (take n (drop source.position source.body), record source { position = source.position + n })

  -- `ReplayBodySource::trailers`
  unfoldable pub take_trailers : ReplayBodySource → Option Headers × ReplayBodySource
  take_trailers source = (source.trailers, record source { trailers = none })

  module _ ⦃urls : Urls⦄ ⦃moka : MokaCache CacheKey Bucket key_eq⦄ where
    open moka use {Cache, build, content, upsert, compute, invalidate}

    -- `InMemoryStorage`
    pub record InMemoryStorage : Type 0 where
      pub cache : Cache
      pub max_capacity_bytes : Option ℕ
      pub time_to_idle : Option Duration
      pub time_to_live : Option Duration

    -- `rebuild`
    unfoldable pub rebuild : InMemoryStorage → InMemoryStorage
    rebuild s = record s {
      cache = build weigh_bucket s.max_capacity_bytes s.time_to_idle s.time_to_live;
    }

    -- `InMemoryStorage::new`
    unfoldable pub new_storage : InMemoryStorage
    new_storage = record {
      cache = build weigh_bucket (some default_max_capacity_bytes) none none;
      max_capacity_bytes = some default_max_capacity_bytes;
      time_to_idle = none;
      time_to_live = none;
    }

    unfoldable pub with_max_capacity_bytes : InMemoryStorage → ℕ → InMemoryStorage
    unfolding rebuild
    with_max_capacity_bytes s bytes = rebuild (record s { max_capacity_bytes = some bytes })

    unfoldable pub unbounded : InMemoryStorage → InMemoryStorage
    unfolding rebuild
    unbounded s = rebuild (record s { max_capacity_bytes = none })

    unfoldable pub with_time_to_idle : InMemoryStorage → Duration → InMemoryStorage
    unfolding rebuild
    with_time_to_idle s duration = rebuild (record s { time_to_idle = some duration })

    unfoldable pub with_time_to_live : InMemoryStorage → Duration → InMemoryStorage
    unfolding rebuild
    with_time_to_live s duration = rebuild (record s { time_to_live = some duration })

    -- `InMemoryEntry`, whose handle on the cache is the state that the operations pass
    pub record InMemoryEntry : Type 0 where
      pub variant : Variant
      pub key : CacheKey

    -- `InMemoryPutHandle`, likewise
    pub record InMemoryPutHandle : Type 0 where
      pub key : CacheKey
      pub policy : CachePolicy
      pub buffer : List ℕ

    -- `CacheStorage::get`
    unfoldable pub get_entries : Cache → CacheKey → List InMemoryEntry
    get_entries cache key = elim (content cache key) [
      | none ↦ []
      | some bucket ↦ map (λ v. record { variant = v; key = key }) bucket
    ]

    -- `CacheStorage::put`
    unfoldable pub put_handle : CacheKey → CachePolicy → InMemoryPutHandle
    put_handle key policy = record { key = key; policy = policy; buffer = [] }

    -- `poll_write`, which takes all bytes
    unfoldable pub write : InMemoryPutHandle → List ℕ → InMemoryPutHandle × ℕ
    write handle buf = (record handle { buffer = handle.buffer ++ buf }, length buf)

    -- `PutHandle::finalize`
    unfoldable pub finalize : Cache → InMemoryPutHandle → Option Headers → Cache
    finalize cache handle trailers = upsert cache handle.key (
        insert_variant
          (record { policy = handle.policy; body = handle.buffer; trailers = trailers }))

    -- `CacheStorage::invalidate`
    unfoldable pub invalidate_key : Cache → CacheKey → Cache
    invalidate_key cache key = invalidate cache key

    -- `StoredEntry::refresh_policy`
    unfoldable pub refresh_policy : Cache → InMemoryEntry → CachePolicy → InMemoryEntry × Cache
    refresh_policy cache entry new_policy = (
      record entry { variant = record entry.variant { policy = new_policy } },
      compute cache entry.key (refresh_bucket new_policy),
    )

    -- `StoredEntry::open`
    unfoldable pub open_entry : InMemoryEntry → ReplayBodySource
    open_entry entry = record {
      body = entry.variant.body;
      position = 0;
      trailers = entry.variant.trailers;
    }
