-- ===== src/Tests/Ledger.antt =====
-- A response that is written into the storage in memory.
use trillium_cache.Prelude.{none, List, [], ◌∷◌, All}
use trillium_cache.Storage.Ledger.{
  Written, Reaches, begins, puts, finalizes, Shows, get_entries-Shows,
}
use trillium_cache.Memory.{InMemoryPutHandle}
use trillium_cache.Memory.Storage.{memory_storage-IsLawful}
use trillium_cache.Tests.World.{world}
use trillium_cache.Tests.Backend.{urls, map_of_buckets, lists, http_bodies, storage}
use trillium_cache.Tests.Samples.{policy, home}

abbrev nothing : storage.Store
nothing key = none

abbrev handle : InMemoryPutHandle
handle = record { key = home; policy = policy; buffer = 104 ∷ 105 ∷ [] }

abbrev filled : storage.Store
filled = (storage.finalize nothing handle none).1

abbrev ledger : List Written
ledger = record { key = home; policy = policy; payload = (104 ∷ 105 ∷ [], none) } ∷ []

filled-Reaches : Reaches memory_storage-IsLawful filled ledger
filled-Reaches =
    finalizes (storage.put nothing home policy).1 [] handle none
      (puts nothing [] home policy (begins nothing (λ k p d h. h)))

get_entries-Shows_example :
    All (Shows memory_storage-IsLawful filled ledger home) (storage.get_entries filled home)
get_entries-Shows_example =
    get_entries-Shows memory_storage-IsLawful filled ledger home filled-Reaches
