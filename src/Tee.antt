-- ===== src/Tee.antt =====
-- src/tee.rs: the reader that writes a body into the storage while it is read.
pub mod Streams
pub mod Drain
pub mod Whole
pub mod Run
pub mod Trailers
pub mod Keeps
pub mod Ends
pub mod Empty
use trillium_cache.Prelude.{
  ℕ, zero, suc, ◌+◌, ◌-◌, ◌%◌, Bool, true, false, Option, none, some, List, [], ◌∷◌, ◌++◌, length,
  min, ltb, ◌==◌, if◌then◌else◌,
}
use trillium_cache.Text.{u64_mod}
use trillium_cache.Http.{Http}
use trillium_cache.Memory.{drop}
use trillium_cache.Tee.Streams.{Poll, pending, ready, failed, Streams as TeeStreams}

module _ ⦃http : Http⦄ ⦃streams : TeeStreams⦄ where
  open http use {Headers}
  open streams use {Body, read, body_trailers, Writer, poll_write, Finalize, finalize, poll}

  -- `TeeState`
  pub data TeeState : Type 0 where
    active : Writer → TeeState
    aborted : TeeState
    finalizing : Finalize → TeeState
    finished : TeeState

  -- `TeeingReader`
  pub record TeeingReader : Type 0 where
    pub upstream : Body
    pub state : TeeState
    pub cap : ℕ
    pub bytes_written : ℕ
    pub unwritten : List ℕ
    pub trailers : Option Headers

  -- What a poll returns, the call of `PutHandle::finalize` that it makes, and the reader behind it.
  pub record Polled : Type 0 where
    pub result : Poll (List ℕ)
    pub finalized : Option (Writer × Option Headers)
    pub reader : TeeingReader

  -- a poll that does not finalize
  abbrev pub returns : Poll (List ℕ) → TeeingReader → Polled
  returns result reader = record { result = result; finalized = none; reader = reader }

  -- `TeeingReader::new`
  unfoldable pub new_reader : Body → Writer → ℕ → TeeingReader
  new_reader upstream writer cap = record {
    upstream = upstream;
    state = active writer;
    cap = cap;
    bytes_written = 0;
    unwritten = [];
    trailers = none;
  }

  -- `TeeingReader::abort`
  abbrev pub abort : TeeingReader → TeeingReader
  abort t = record t { state = aborted; unwritten = [] }

  -- How the loop that writes the pending bytes ends: the writer blocks with bytes left, or has taken
  -- all, or is dropped for an error.
  pub data Drained : Type 0 where
    blocked : Writer → List ℕ → Drained
    drained : Writer → Drained
    dropped : Drained

  -- the loop; each round writes a byte at least, so one unit of fuel more than there are bytes is enough
  unfoldable pub drain : ℕ → Writer → List ℕ → Drained
  drain zero w bytes = dropped
  drain (suc fuel) w [] = drained w
  drain (suc fuel) w (b ∷ bytes) =
      let (result, w') = poll_write w (b ∷ bytes) in
      elim result [
        | pending ↦ blocked w' (b ∷ bytes)
        | failed ↦ dropped
        | ready n ↦ elim (n == 0) [ true ↦ dropped | false ↦ drain fuel w' (drop n (b ∷ bytes)) ]
      ]

  -- a poll of the future of `finalize`
  unfoldable pub drive : TeeingReader → Finalize → Poll (List ℕ) × TeeingReader
  drive t future =
      let (result, future') = poll future in
      elim result [
        | pending ↦ (pending, record t { state = finalizing future' })
        | ready done ↦ (ready [], record t { state = finished })
        | failed ↦ (ready [], record t { state = finished })
      ]

  -- the end of the body with an active writer
  unfoldable pub finish : TeeingReader → Writer → Polled
  unfolding drive
  finish t w =
      let (trailers, upstream) = body_trailers t.upstream in
      let t = record t { upstream = upstream; trailers = trailers } in
      let (result, t) = drive t (finalize w trailers) in
      record { result = result; finalized = some (w, trailers); reader = t }

  -- bytes for the caller, with an active writer
  unfoldable pub tee_bytes : TeeingReader → Writer → List ℕ → TeeingReader
  tee_bytes t w bytes =
      let n = length bytes in
      if ltb t.cap (min (t.bytes_written + n) (u64_mod - 1))
      then abort t
      else (let (result, w') = poll_write w bytes in
          elim result [
            | failed ↦ abort t
            | pending ↦ record t {
              state = active w';
              bytes_written = (t.bytes_written + n) % u64_mod;
              unwritten = t.unwritten ++ bytes;
            }
            | ready written ↦ if written == 0 then abort t else record t {
              state = active w';
              bytes_written = (t.bytes_written + n) % u64_mod;
              unwritten = if ltb written n then t.unwritten ++ drop written bytes else t.unwritten;
            }
          ])

  -- the read from upstream and what follows, with an active writer
  unfoldable pub read_active : TeeingReader → Writer → ℕ → Polled
  read_active t w k =
      let (result, upstream) = read t.upstream k in
      let t = record t { upstream = upstream; state = active w; unwritten = [] } in
      elim result [
        | pending ↦ returns pending t
        | failed ↦ returns failed t
        | ready [] ↦ finish t w
        | ready (b ∷ bytes) ↦ returns (ready (b ∷ bytes)) (tee_bytes t w (b ∷ bytes))
      ]

  -- the same with no writer
  unfoldable pub read_through : TeeingReader → ℕ → Polled
  read_through t k =
      let (result, upstream) = read t.upstream k in
      returns result (record t { upstream = upstream; state = aborted; unwritten = [] })

  -- `TeeingReader::poll_read` into a buffer of the given length
  unfoldable pub poll_read : TeeingReader → ℕ → Polled
  poll_read t k = elim t.state [
    | finished ↦ returns (ready []) t
    | finalizing future ↦ let (result, t') = drive t future in returns result t'
    | aborted ↦ read_through t k
    | active w ↦ elim (drain (suc (length t.unwritten)) w t.unwritten) [
      | blocked w' bytes ↦ returns pending (record t { state = active w'; unwritten = bytes })
      | dropped ↦ read_through t k
      | drained w' ↦ read_active t w' k
    ]
  ]

  -- `BodySource::trailers`
  unfoldable pub take_tee_trailers : TeeingReader → Option Headers × TeeingReader
  take_tee_trailers t = (t.trailers, record t { trailers = none })
