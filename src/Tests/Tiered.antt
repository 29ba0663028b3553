-- ===== src/Tests/Tiered.antt =====
-- A storage in memory in front of another, and the loop that copies a body.
use trillium_cache.Prelude.{ℕ, ◌≡◌, ◌≢◌, ◌⊎◌, refl, none, some, List, [], ◌∷◌, arith}
use trillium_cache.Text.{u64_mod}
use trillium_cache.Policy.{CachePolicy}
use trillium_cache.Storage.{CacheKey}
use trillium_cache.Storage.Traits.{IsLawful, Payload, weaken-IsLawful}
use trillium_cache.Memory.{Variant, InMemoryEntry, InMemoryPutHandle}
use trillium_cache.Memory.Storage.{
  memory_storage, MemoryHolds, handle_target, memory_storage-IsLawful,
}
use trillium_cache.Bodies.{Replays, Restores-Replays}
use trillium_cache.Tiered.{TieredStore, tiered_storage, find_variant, flush_to_cold}
use trillium_cache.Tiered.Opening.{TieredHolds, tiered_accepted, tiered_target}
use trillium_cache.Tiered.Lawful.{tiered_storage-IsLawful}
use trillium_cache.Tiered.Flush.{
  Copied, HotAfter, ColdAfter, flush_to_cold-Copied, flush_to_cold-completes,
}
use trillium_cache.Tests.World.{world}
use trillium_cache.Tests.Backend.{urls, map_of_buckets, lists, http_bodies, storage, ListBody}
use trillium_cache.Tests.Samples.{policy, home}

-- The storage in memory as a tier.
abbrev tier_laws : IsLawful memory_storage MemoryHolds (λ h. h.buffer) handle_target Replays
tier_laws = weaken-IsLawful Restores-Replays memory_storage-IsLawful

tiered_storage-IsLawful_example :
    IsLawful
      (tiered_storage storage storage)
      (TieredHolds tier_laws tier_laws)
      (tiered_accepted tier_laws tier_laws)
      (tiered_target tier_laws tier_laws)
      Replays
tiered_storage-IsLawful_example = tiered_storage-IsLawful tier_laws tier_laws

abbrev variant : Variant
variant = record { policy = policy; body = 104 ∷ 105 ∷ []; trailers = none }

-- The hot tier holds one response, and its flush is to run.
abbrev tiers : TieredStore storage storage
tiers = record {
  hot_store = λ key. some (variant ∷ []);
  cold_store = λ key. none;
  flushes = (home, policy) ∷ [];
}

abbrev flushed : TieredStore storage storage
flushed = (flush_to_cold storage storage tiers home policy).1

flush_to_cold-Copied_example :
    (flushed.flushes ≡ tiers.flushes)
    × HotAfter tier_laws tier_laws tiers policy flushed.hot_store
    × ColdAfter tier_laws tier_laws tiers home policy flushed.cold_store
    × ((j : CacheKey) (q : CachePolicy) (d : Payload)
        → TieredHolds tier_laws tier_laws flushed j q d
        → TieredHolds tier_laws tier_laws tiers j q d
          ⊎ ((j ≡ home) × (q ≡ policy) × Copied tier_laws tier_laws tiers home policy d))
flush_to_cold-Copied_example = flush_to_cold-Copied tier_laws tier_laws tiers home policy

abbrev entry : InMemoryEntry
entry = record { variant = variant; key = home }

abbrev body : ListBody
body = ([], 104 ∷ 105 ∷ [], none)

abbrev handle : InMemoryPutHandle
handle = record { key = home; policy = policy; buffer = [] }

found : find_variant storage storage policy (storage.get_entries tiers.hot_store home) ≡ some entry
unfolding find_variant trillium_cache.Memory.get_entries trillium_cache.Policy.same_variant_as
    trillium_cache.Policy.new_policy trillium_cache.Policy.build_vary_snapshot
    trillium_cache.Text.str_eq trillium_cache.Policy.vary_names mathlib.Core.List.flat_map
    mathlib.Core.List.filter_map trillium_cache.Text.split trillium_cache.Text.is_empty_str
    trillium_cache.Text.trim trillium_cache.Text.to_ascii_lowercase
found = refl

opened : (storage.open_entry tiers.hot_store entry).0 ≡ some body
unfolding trillium_cache.Memory.open_entry trillium_cache.Memory.read_replay
    trillium_cache.Memory.take_trailers
opened = refl

ready : (storage.put tiers.cold_store home policy).0 ≡ some handle
unfolding trillium_cache.Memory.put_handle
ready = refl

reads : (b : ListBody) → (http_bodies.read_chunk b 8192).0 ≢ none
reads b e = cc e

writes : (w : InMemoryPutHandle) (bytes : List ℕ) → storage.write_all w bytes ≢ none
writes w bytes e = cc e

flush_to_cold-completes_example :
    (end : InMemoryPutHandle) × (end.buffer ≡ 104 ∷ 105 ∷ [])
    × (handle_target end ≡ (home, policy))
    × ((flush_to_cold storage storage tiers home policy).1.cold_store
        ≡ (storage.finalize (storage.put tiers.cold_store home policy).1 end none).1)
flush_to_cold-completes_example =
    flush_to_cold-completes tier_laws tier_laws tiers home policy entry body handle found opened
      ready reads writes refl (omega arith)
