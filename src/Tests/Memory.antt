-- ===== src/Tests/Memory.antt =====
-- The storage in memory over a map that never drops anything.
use trillium_cache.Prelude.{◌≡◌, ◌⊎◌, ◌<◌, none, some, [], ◌∷◌, length}
use trillium_cache.Storage.Traits.{IsLawful}
use trillium_cache.Bodies.{Restores}
use trillium_cache.Memory.Storage.{memory_storage, MemoryHolds, handle_target}
use trillium_cache.Memory.Promises.{
  IsDropped, FinalizeReplaces, RefreshReplaces, memory_storage-Promises,
}
use trillium_cache.Memory.{
  InMemoryPutHandle, refresh_policy, Variant, Bucket, InMemoryEntry, finalize, put_handle,
  weigh_bucket, take, open_entry,
}
use trillium_cache.Memory.Buckets.{select}
use trillium_cache.Memory.Reach.{
  built, stepped, finalized, IsWellFormed, Reachable-IsWellFormed, write_all, concat,
  finalize-write_all,
}
use trillium_cache.Memory.Replay.{reads, reads-open_entry}
use trillium_cache.Tests.World.{world}
use trillium_cache.Tests.Backend.{urls, map_of_buckets, lists, http_bodies}
use trillium_cache.Tests.Samples.{policy, home}

abbrev stored : Variant
stored = record { policy = policy; body = 104 ∷ 105 ∷ []; trailers = none }

abbrev replacement : Variant
replacement = record { policy = policy; body = 1 ∷ []; trailers = some [] }

abbrev empty_map : map_of_buckets.Cache
empty_map = map_of_buckets.build weigh_bucket (some 1024) none none

abbrev filled : map_of_buckets.Cache
filled = finalize empty_map (write_all (put_handle home policy) ((104 ∷ []) ∷ (105 ∷ []) ∷ [])) none

Reachable-IsWellFormed_example : IsWellFormed filled
Reachable-IsWellFormed_example = Reachable-IsWellFormed filled (
    stepped empty_map filled (built (some 1024) none none) (
      finalized empty_map (write_all (put_handle home policy) ((104 ∷ []) ∷ (105 ∷ []) ∷ [])) none))

finalize-write_all_example :
    (map_of_buckets.content filled home ≡ none)
    ⊎ ((b : Bucket) × (map_of_buckets.content filled home ≡ some b)
        × (select policy b
            ≡ record {
              policy = policy;
              body = concat ((104 ∷ []) ∷ (105 ∷ []) ∷ []);
              trailers = none;
            }
              ∷ []))
finalize-write_all_example =
    finalize-write_all empty_map home policy ((104 ∷ []) ∷ (105 ∷ []) ∷ []) none
      (built (some 1024) none none)

abbrev entry : InMemoryEntry
entry = record { variant = stored; key = home }

reads-open_entry_example :
    (reads (open_entry entry) (1 ∷ 5 ∷ []) ≡ take 6 (104 ∷ 105 ∷ []))
    × ((6 < length entry.variant.body) ⊎ (reads (open_entry entry) (1 ∷ 5 ∷ []) ≡ 104 ∷ 105 ∷ []))
reads-open_entry_example = reads-open_entry entry (1 ∷ 5 ∷ [])

abbrev handle : InMemoryPutHandle
handle = record { key = home; policy = policy; buffer = 1 ∷ [] }

memory_storage-Promises_example :
    IsLawful memory_storage MemoryHolds (λ w. w.buffer) handle_target Restores
    × (IsDropped (finalize filled handle (some [])) home ⊎ FinalizeReplaces filled handle (some []))
    × (IsDropped (refresh_policy filled entry policy).1 home ⊎ RefreshReplaces filled entry policy)
memory_storage-Promises_example = memory_storage-Promises filled handle (some []) entry policy (
    stepped empty_map filled (built (some 1024) none none) (
      finalized empty_map (write_all (put_handle home policy) ((104 ∷ []) ∷ (105 ∷ []) ∷ [])) none))
