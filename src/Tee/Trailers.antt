-- ===== src/Tee/Trailers.antt =====
-- The trailers of a body that is read through the tee.
use trillium_cache.Prelude.{
  ℕ, ◌+◌, ◌-◌, ◌≡◌, ◌<◌, refl, true, none, List, [], ◌∷◌, arith, length, ltb, min,
}
use trillium_cache.Text.{u64_mod}
use trillium_cache.Http.{Http}
use trillium_cache.Tee.Streams.{ready, Streams as TeeStreams}
use trillium_cache.Tee.{
  TeeingReader, active, aborted, poll_read, drain, read_active, read_through, tee_bytes,
  take_tee_trailers,
}
use trillium_cache.Tee.Run.{after}

module _ ⦃http : Http⦄ ⦃streams : TeeStreams⦄ where
  open streams use {Writer, read}

  -- The writer is gone, and no trailers have been read.
  abbrev IsPassing : TeeingReader → Type 0
  IsPassing t = (t.state ≡ aborted) × (t.trailers ≡ none)

  after-IsPassing : (t : TeeingReader) (ks : List ℕ) → IsPassing t → IsPassing (after t ks)
  unfolding poll_read read_through
  after-IsPassing t [] h = h
  after-IsPassing t (k ∷ ks) h =
      after-IsPassing (poll_read t k).reader ks (rw (h.0, poll_read) (refl, h.1))

  over_cap :
      (t : TeeingReader) (w : Writer) (bytes : List ℕ)
      → t.cap < t.bytes_written + length bytes
      → t.cap < u64_mod - 1
      → tee_bytes t w bytes ≡ record t { state = aborted; unwritten = [] }
  unfolding tee_bytes
  over_cap t w bytes h small =
      let over : ltb t.cap (min (t.bytes_written + length bytes) (u64_mod - 1)) ≡ true =
        ground (arith, h, small) in
      rw (over, tee_bytes) refl

  -- Once a body outgrows the cap, its reader gives no trailers, however long it is polled and whatever
  -- trailers the body ends with.
  pub poll_read-loses_trailers :
      (t : TeeingReader) (w : Writer) (k b : ℕ) (bytes ks : List ℕ)
      → t.state ≡ active w
      → t.unwritten ≡ []
      → t.trailers ≡ none
      → (read t.upstream k).0 ≡ ready (b ∷ bytes)
      → t.cap < t.bytes_written + length (b ∷ bytes)
      → t.cap < u64_mod - 1
      → (take_tee_trailers (after t (k ∷ ks))).0 ≡ none
  unfolding poll_read drain read_active take_tee_trailers
  poll_read-loses_trailers t w k b bytes ks e f g r h small =
      let t' = record t { upstream = (read t.upstream k).1; state = active w; unwritten = [] } in
      let passing : IsPassing (poll_read t k).reader =
        rw (e, poll_read)
          (rw f (rw (r, read_active) (rw (over_cap t' w (b ∷ bytes) h small) (refl, g)))) in
      (after-IsPassing (poll_read t k).reader ks passing).1
