-- ===== src/Tests/Tee.antt =====
-- A body of three bytes that is read through the tee, into a writer that accepts one byte at a time.
use trillium_cache.Prelude.{
  ℕ, ◌-◌, ◌+◌, length, none, ◌≡◌, ◌<◌, refl, some, List, [], ◌∷◌, arith, All,
}
use trillium_cache.Tee.Streams.{ready}
use trillium_cache.Tee.{TeeingReader, active, new_reader, poll_read, drain, take_tee_trailers}
use trillium_cache.Tee.Drain.{drain-enough_fuel}
use trillium_cache.Tee.Whole.{IsTracking, Commits}
use trillium_cache.Text.{u64_mod}
use trillium_cache.Tee.Trailers.{poll_read-loses_trailers}
use trillium_cache.Tee.Run.{after, served, calls, polls-new_reader}
use trillium_cache.Tee.Empty.{served-empty_buffer}
use trillium_cache.Prelude.{Option}
use trillium_cache.Tests.World.{world}
use trillium_cache.Tests.Backend.{urls, map_of_buckets, lists, ListBody}
use trillium_cache.Tests.Samples.{policy, home}
use trillium_cache.Memory.{InMemoryPutHandle}

abbrev text : List ℕ
text = 97 ∷ 98 ∷ 99 ∷ []

abbrev letters : ListBody
letters = ([], 97 ∷ 98 ∷ 99 ∷ [], some [])

abbrev handle : InMemoryPutHandle
handle = record { key = home; policy = policy; buffer = [] }

abbrev reader : TeeingReader
reader = new_reader letters handle 1024

reader-IsTracking : IsTracking reader
unfolding new_reader
reader-IsTracking = refl

polls-new_reader_example :
    (served (new_reader letters handle 1024) (2 ∷ 2 ∷ 2 ∷ [])
      ≡ lists.yielded (after (new_reader letters handle 1024) (2 ∷ 2 ∷ 2 ∷ [])).upstream)
    × All (Commits (97 ∷ 98 ∷ 99 ∷ [])) (calls (new_reader letters handle 1024) (2 ∷ 2 ∷ 2 ∷ []))
polls-new_reader_example =
    polls-new_reader letters handle 1024 (2 ∷ 2 ∷ 2 ∷ [])
      (omega arith, (omega arith, (omega arith, tt))) refl refl

reader_active : reader.state ≡ active handle
unfolding new_reader
reader_active = refl

reader_written : reader.unwritten ≡ []
unfolding new_reader
reader_written = refl

reader_reads : (lists.read reader.upstream 0).0 ≡ ready []
unfolding new_reader
reader_reads = refl

served-empty_buffer_example :
    (served reader (0 ∷ 2 ∷ 2 ∷ []) ≡ [])
    × ((trailers : Option world.Headers) × (calls reader (0 ∷ 2 ∷ 2 ∷ [])
          ≡ some (handle, trailers) ∷ calls (poll_read reader 0).reader (2 ∷ 2 ∷ [])))
served-empty_buffer_example =
    served-empty_buffer reader handle (2 ∷ 2 ∷ []) reader_active reader_written reader_reads

drain-enough_fuel_example : drain 3 handle (97 ∷ 98 ∷ []) ≡ drain 9 handle (97 ∷ 98 ∷ [])
drain-enough_fuel_example = drain-enough_fuel 3 9 handle (97 ∷ 98 ∷ []) (omega arith) (omega arith)

-- A reader whose cap is two bytes.
abbrev small : TeeingReader
small = new_reader letters handle 2

small_reads : (lists.read small.upstream 3).0 ≡ ready (97 ∷ 98 ∷ 99 ∷ [])
unfolding new_reader
small_reads = refl

small_over : small.cap < small.bytes_written + length text
unfolding new_reader
small_over = omega arith

small_cap : small.cap < u64_mod - 1
unfolding new_reader
small_cap = omega arith

small_active : small.state ≡ active handle
unfolding new_reader
small_active = refl

small_written : small.unwritten ≡ []
unfolding new_reader
small_written = refl

small_trailers : small.trailers ≡ none
unfolding new_reader
small_trailers = refl

poll_read-loses_trailers_example : (take_tee_trailers (after small (3 ∷ 3 ∷ []))).0 ≡ none
poll_read-loses_trailers_example =
    poll_read-loses_trailers small handle 3 97 (98 ∷ 99 ∷ []) (3 ∷ []) small_active small_written
      small_trailers small_reads small_over small_cap
