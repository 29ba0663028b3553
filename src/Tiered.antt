-- ===== src/Tiered.antt =====
-- src/tiered.rs: a fast storage in front of a durable one.
pub mod Opening
pub mod Lawful
pub mod Flush
use trillium_cache.Prelude.{
  ℕ, zero, suc, ◌-◌, ◌^◌, Bool, true, false, Option, none, some, List, [], ◌∷◌, ◌++◌, map, length,
}
use trillium_cache.Text.{u64_mod}
use trillium_cache.Http.{Http}
use trillium_cache.Policy.{CachePolicy, same_variant_as}
use trillium_cache.Storage.{Urls, CacheKey}
use trillium_cache.Storage.Traits.{CacheStorage}
use trillium_cache.Storage.Copy.{copy_chunks}
use trillium_cache.Tee.Streams.{Poll, Streams as TeeStreams}
use trillium_cache.Tee.{new_reader}
use trillium_cache.Bodies.{HttpBodies}

module _ ⦃http : Http⦄ ⦃urls : Urls⦄ ⦃streams : TeeStreams⦄ ⦃bodies : HttpBodies⦄
    {ColdHandle : Type 0} (hot : CacheStorage streams.Body streams.Writer)
    (cold : CacheStorage streams.Body ColdHandle) where
  open http use {Headers}
  open streams use {Body, Writer, poll_write, whole}
  open bodies use {body_len, body_of_tee}

  -- `TieredStorage`: what the two tiers hold, and the flushes that are spawned on the runtime and have not
  -- run yet
  pub record TieredStore : Type 0 where
    pub hot_store : hot.Store
    pub cold_store : cold.Store
    pub flushes : List (CacheKey × CachePolicy)

  -- `TieredEntry`
  pub data TieredEntry : Type 0 where
    in_hot : hot.Entry → TieredEntry
    in_cold : cold.Entry → CacheKey → TieredEntry

  -- `TieredPutHandle`
  pub record TieredPutHandle : Type 0 where
    pub hot_handle : Writer
    pub key : CacheKey
    pub policy : CachePolicy

  -- `TieredStorage::new`
  unfoldable pub new_tiered : hot.Store → cold.Store → TieredStore
  new_tiered h c = record { hot_store = h; cold_store = c; flushes = [] }

  -- what the tiers hold under a key, hot first
  abbrev pub hot_first : CacheKey → List hot.Entry → List cold.Entry → List TieredEntry
  hot_first key [] colds = map (λ entry. in_cold entry key) colds
  hot_first key (entry ∷ entries) colds = map in_hot (entry ∷ entries)

  -- `CacheStorage::get`
  unfoldable pub get_tiered : TieredStore → CacheKey → List TieredEntry
  get_tiered store key =
      hot_first key (hot.get_entries store.hot_store key) (cold.get_entries store.cold_store key)

  -- `CacheStorage::put`
  unfoldable pub put_tiered :
      TieredStore → CacheKey → CachePolicy → Option TieredPutHandle × TieredStore
  put_tiered store key policy =
      let (result, hot_store) = hot.put store.hot_store key policy in
      let store = record store { hot_store = hot_store } in
      elim result [
        | none ↦ (none, store)
        | some handle ↦ (some (record { hot_handle = handle; key = key; policy = policy }), store)
      ]

  -- `CacheStorage::invalidate`
  unfoldable pub invalidate_tiered : TieredStore → CacheKey → TieredStore
  invalidate_tiered store key = record store {
    hot_store = hot.invalidate store.hot_store key;
    cold_store = cold.invalidate store.cold_store key;
  }

  -- `StoredEntry::policy`
  unfoldable pub tiered_policy : TieredEntry → CachePolicy
  tiered_policy (in_hot entry) = hot.policy entry
  tiered_policy (in_cold entry key) = cold.policy entry

  -- `StoredEntry::refresh_policy`
  unfoldable pub refresh_tiered :
      TieredStore → TieredEntry → CachePolicy → Bool × TieredEntry × TieredStore
  refresh_tiered store (in_hot entry) policy =
      let (ok, entry, hot_store) = hot.refresh_policy store.hot_store entry policy in
      (ok, in_hot entry, record store { hot_store = hot_store })
  refresh_tiered store (in_cold entry key) policy =
      let (ok, entry, cold_store) = cold.refresh_policy store.cold_store entry policy in
      (ok, in_cold entry key, record store { cold_store = cold_store })

  -- the promotion of a cold entry, whose body is at hand
  unfoldable pub promote : TieredStore → CacheKey → CachePolicy → Body → Option Body × TieredStore
  promote store key policy cold_body =
      let len = body_len cold_body in
      let (result, hot_store) = hot.put store.hot_store key policy in
      let store = record store { hot_store = hot_store } in
      elim result [
        | none ↦ (some cold_body, store)
        | some handle ↦ (some (body_of_tee (new_reader cold_body handle (u64_mod - 1)) len), store)
      ]

  -- `StoredEntry::open`
  unfoldable pub open_tiered : TieredStore → TieredEntry → Option Body × TieredStore
  open_tiered store (in_hot entry) =
      let (opened, hot_store) = hot.open_entry store.hot_store entry in
      (opened, record store { hot_store = hot_store })
  open_tiered store (in_cold entry key) =
      let policy = cold.policy entry in
      let (opened, cold_store) = cold.open_entry store.cold_store entry in
      let store = record store { cold_store = cold_store } in
      elim opened [ none ↦ (none, store) | some cold_body ↦ promote store key policy cold_body ]

  -- `AsyncWrite::poll_write`, and `write_all` over it
  unfoldable pub write_tiered : TieredPutHandle → List ℕ → Poll ℕ × TieredPutHandle
  write_tiered handle buf =
      let (result, hot_handle) = poll_write handle.hot_handle buf in
      (result, record handle { hot_handle = hot_handle })

  unfoldable pub write_all_tiered : TieredPutHandle → List ℕ → Option TieredPutHandle
  write_all_tiered handle buf = elim (hot.write_all handle.hot_handle buf) [
    | none ↦ none
    | some hot_handle ↦ some (record handle { hot_handle = hot_handle })
  ]

  -- `PutHandle::finalize`, which spawns the flush
  unfoldable pub finalize_tiered :
      TieredStore → TieredPutHandle → Option Headers → Bool × TieredStore
  finalize_tiered store handle trailers =
      let (ok, hot_store) = hot.finalize store.hot_store handle.hot_handle trailers in
      let store = record store { hot_store = hot_store } in
      elim ok [
        | false ↦ (false, store)
        | true ↦
            (true, record store { flushes = store.flushes ++ (handle.key, handle.policy) ∷ [] })
      ]

  -- the search of `flush_to_cold`
  unfoldable pub find_variant : CachePolicy → List hot.Entry → Option hot.Entry
  find_variant policy [] = none
  find_variant policy (entry ∷ entries) =
      let rest = find_variant policy entries in
      elim (same_variant_as (hot.policy entry) policy) [ true ↦ some entry | false ↦ rest ]

  -- `flush_to_cold`
  unfoldable pub flush_to_cold : TieredStore → CacheKey → CachePolicy → Bool × TieredStore
  flush_to_cold store key policy =
      elim (find_variant policy (hot.get_entries store.hot_store key)) [
        | none ↦ (true, store)
        | some entry ↦
            let (opened, hot_store) = hot.open_entry store.hot_store entry in
            let store = record store { hot_store = hot_store } in
            elim opened [
              | none ↦ (false, store)
              | some body ↦
                  let (result, cold_store) = cold.put store.cold_store key policy in
                  let store = record store { cold_store = cold_store } in
                  elim result [
                    | none ↦ (false, store)
                    | some put ↦
                        let (ok, cold_store) =
                          copy_chunks cold (λ total. true) (suc (length (whole body)))
                            store.cold_store put body 0 in
                        (ok, record store { cold_store = cold_store })
                  ]
            ]
      ]

  -- one of the spawned tasks runs, in whatever order the runtime takes them; its error is only logged
  unfoldable pub run_flush :
      TieredStore → CacheKey × CachePolicy → List (CacheKey × CachePolicy) → TieredStore
  run_flush store task rest =
      record (flush_to_cold (record store { flushes = rest }) task.0 task.1).1 { flushes = rest }

  -- `CacheStorage for TieredStorage`, with its entry and handle
  abbrev pub tiered_storage : CacheStorage Body TieredPutHandle
  tiered_storage = record {
    Store = TieredStore;
    Entry = TieredEntry;
    get_entries = get_tiered;
    put = put_tiered;
    invalidate = invalidate_tiered;
    policy = tiered_policy;
    refresh_policy = refresh_tiered;
    open_entry = open_tiered;
    write_all = write_all_tiered;
    finalize = finalize_tiered;
  }
