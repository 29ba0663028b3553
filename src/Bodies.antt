-- ===== src/Bodies.antt =====
-- What the handlers and the tiered storage use of `Body` of trillium_http beside its polls.
use trillium_cache.Prelude.{
  ℕ, ◌≡◌, ◌⊎◌, inl, ◌≤◌, ◌<◌, Option, none, some, List, [], ◌++◌, length, unwrap_or,
}
use trillium_cache.Http.{Http}
use trillium_cache.Storage.Traits.{Payload}
use trillium_cache.Memory.{ReplayBodySource, read_replay, take_trailers}
use trillium_cache.Memory.Replay.{reads, read_on}
use trillium_cache.Tee.Streams.{Streams as TeeStreams}
use trillium_cache.Tee.{TeeingReader}
use trillium_cache.Tee.Ends.{PassesOn, EndsWith}

pub record HttpBodies ⦃http : Http⦄ ⦃streams : TeeStreams⦄ : Type 0 where
  pub empty_body : streams.Body
  pub body_len : streams.Body → Option ℕ
  pub without_chunked_framing : streams.Body → streams.Body
  -- `ResponseBody` of trillium_client, which is a body here: its `content_length`, and the body that
  -- `Body::new_with_trailers` makes of it
  pub content_length : streams.Body → Option ℕ
  pub body_of_response : streams.Body → Option ℕ → streams.Body
  -- `Body::new_with_trailers` on a `TeeingReader` and on a `ReplayBodySource`
  pub body_of_tee : TeeingReader → Option ℕ → streams.Body
  pub body_of_replay : ReplayBodySource → Option ℕ → streams.Body
  -- the trailers behind the last byte
  pub ends_with : streams.Body → Option http.Headers
  -- `read` of `AsyncReadExt` into a buffer of the given length; `none` is an error
  pub read_chunk : streams.Body → ℕ → Option (List ℕ) × streams.Body
  pub yielded-read_chunk :
      (b : streams.Body) (k : ℕ)
      → streams.yielded (read_chunk b k).1 ≡ streams.yielded b ++ unwrap_or (read_chunk b k).0 []
  pub whole-read_chunk :
      (b : streams.Body) (k : ℕ) → streams.whole (read_chunk b k).1 ≡ streams.whole b
  pub ends_with-read_chunk : (b : streams.Body) (k : ℕ) → ends_with (read_chunk b k).1 ≡ ends_with b
  -- no byte for a buffer with room is the end of the body, and its trailers are there then
  pub read_chunk-end :
      (b : streams.Body) (k : ℕ)
      → 0 < k
      → (read_chunk b k).0 ≡ some []
      → streams.yielded b ≡ streams.whole b
  pub trailers-end :
      (b : streams.Body)
      → streams.yielded b ≡ streams.whole b
      → (streams.body_trailers b).0 ≡ ends_with b
  pub length-yielded : (b : streams.Body) → length (streams.yielded b) ≤ length (streams.whole b)
  pub ends_with-read : (b : streams.Body) (k : ℕ) → ends_with (streams.read b k).1 ≡ ends_with b
  -- A body that is made of a source is read by polling the source. It has given out nothing yet. It holds
  -- the bytes that the source gives until a read gives none, and has the trailers that the source gives
  -- then.
  pub yielded-replay :
      (r : ReplayBodySource) (n : Option ℕ) → streams.yielded (body_of_replay r n) ≡ []
  pub whole-replay :
      (r : ReplayBodySource) (n : Option ℕ) (ks : List ℕ) (k : ℕ)
      → 0 < k
      → (read_replay (read_on r ks) k).0 ≡ []
      → streams.whole (body_of_replay r n) ≡ reads r ks
  pub ends_with-replay :
      (r : ReplayBodySource) (n : Option ℕ) (ks : List ℕ) (k : ℕ)
      → 0 < k
      → (read_replay (read_on r ks) k).0 ≡ []
      → ends_with (body_of_replay r n) ≡ (take_trailers (read_replay (read_on r ks) k).1).0
  -- A source that is a reader over another body may block or fail before it ends. If whatever it is
  -- polled for it gives what its upstream gives out, and ends only where that does, the body made of it
  -- holds the bytes of its upstream; its trailers are some that the source gives.
  pub yielded-tee : (t : TeeingReader) (n : Option ℕ) → streams.yielded (body_of_tee t n) ≡ []
  pub whole-tee :
      (t : TeeingReader) (n : Option ℕ)
      → streams.yielded t.upstream ≡ []
      → PassesOn t
      → streams.whole (body_of_tee t n) ≡ streams.whole t.upstream
  pub ends_with-tee :
      (t : TeeingReader) (n : Option ℕ) (x : Option http.Headers)
      → EndsWith t x
      → (ends_with (body_of_tee t n) ≡ x) ⊎ (ends_with (body_of_tee t n) ≡ none)

module _ ⦃http : Http⦄ ⦃streams : TeeStreams⦄ ⦃bodies : HttpBodies⦄ where
  -- The body replays the bytes of a payload, from their start, and its trailers or none.
  abbrev pub Replays : streams.Body → Payload → Type 0
  Replays b d =
      (streams.yielded b ≡ [])
      × (streams.whole b ≡ d.0)
      × ((bodies.ends_with b ≡ d.1) ⊎ (bodies.ends_with b ≡ none))

  -- The same, with the trailers.
  abbrev pub Restores : streams.Body → Payload → Type 0
  Restores b d = (streams.yielded b ≡ []) × (streams.whole b ≡ d.0) × (bodies.ends_with b ≡ d.1)

  pub Restores-Replays : (b : streams.Body) (d : Payload) → Restores b d → Replays b d
  Restores-Replays b d (start, bytes, trailers) = (start, bytes, inl trailers)
