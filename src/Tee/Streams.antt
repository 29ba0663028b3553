-- ===== src/Tee/Streams.antt =====
-- What the teeing reader calls: the body that it reads, a type of trillium_http, and the handle of the
-- storage that it writes to, with the future of `PutHandle::finalize`.
use trillium_cache.Prelude.{ℕ, ◌≡◌, ◌<◌, Option, List, [], ◌++◌}
use trillium_cache.Http.{Http}
use trillium_cache.Memory.{take}

-- `Poll<io::Result<A>>`
pub data Poll (A : Type 0) : Type 0 where
  pending : Poll A
  ready : A → Poll A
  failed : Poll A

-- The bytes that a poll gives.
abbrev pub gain : Poll (List ℕ) → List ℕ
gain pending = []
gain (ready bytes) = bytes
gain failed = []

-- The bytes of a buffer that a poll accepts.
abbrev pub taken : Poll ℕ → List ℕ → List ℕ
taken pending buf = []
taken (ready n) buf = take n buf
taken failed buf = []

pub record Streams ⦃http : Http⦄ : Type 1 where
  -- `Body`: what it holds, and what it has given out so far
  pub Body : Type 0
  pub read : Body → ℕ → Poll (List ℕ) × Body
  pub body_trailers : Body → Option http.Headers × Body
  pub whole : Body → List ℕ
  pub yielded : Body → List ℕ
  pub whole-read : (b : Body) (k : ℕ) → whole (read b k).1 ≡ whole b
  pub yielded-read : (b : Body) (k : ℕ) → yielded (read b k).1 ≡ yielded b ++ gain (read b k).0
  pub whole-trailers : (b : Body) → whole (body_trailers b).1 ≡ whole b
  pub yielded-trailers : (b : Body) → yielded (body_trailers b).1 ≡ yielded b
  -- no byte for a buffer with room is the end of the body
  pub read-end : (b : Body) (k : ℕ) → 0 < k → (read b k).0 ≡ ready [] → yielded b ≡ whole b
  -- `PutHandle`: what it has accepted so far
  pub Writer : Type 0
  pub poll_write : Writer → List ℕ → Poll ℕ × Writer
  pub accepted : Writer → List ℕ
  pub accepted-poll_write :
      (w : Writer) (buf : List ℕ)
      → accepted (poll_write w buf).1 ≡ accepted w ++ taken (poll_write w buf).0 buf
  -- the future of `PutHandle::finalize`
  pub Finalize : Type 0
  pub finalize : Writer → Option http.Headers → Finalize
  pub poll : Finalize → Poll Unit × Finalize
