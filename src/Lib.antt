-- ===== src/Lib.antt =====
-- A model of trillium-cache, an HTTP cache after RFC 9111 for the trillium server and client.
--
-- A stored response is described by a `CachePolicy`: the request's method, the values of the headers
-- that `Vary` names, and the status, headers, directives and time of the response. Eleven source files
-- are modelled, each by a module:
-- * Policy (src/policy.rs) makes a policy of an exchange, chooses between `CDN-Cache-Control` and
--   `Cache-Control`, compares variants, and converts a policy to its form on disk (Policy.Repr).
-- * Storability (src/storability.rs) says whether an exchange may be stored: `is_storable`.
-- * Freshness (src/freshness.rs) computes the age of a stored response and its lifetime, and from
--   them whether it is stale and may be served stale. `CachePolicy::age` is `current_age` here.
-- * Validation (src/validation.rs) answers a request from the stored response or makes the request
--   that revalidates it (`before_request`), and updates the policy by the origin's answer
--   (`after_response`). Validation.Etag reads lists of entity-tags, Validation.Merge filters and
--   merges headers.
-- * Memory (src/memory.rs) is the storage in memory: its buckets of variants, the handle that a body
--   is written to, and the replay of a stored body, over the map of the crate moka, which is a
--   parameter (Memory.Moka) that may drop any entry. What the source shares through a handle on the map
--   is passed as state, Memory.Reach runs any sequence of the operations, and Memory.Promises holds it to
--   the documentation of the traits.
-- * Tee (src/tee.rs) is the reader that writes a body into the storage while it is read. `poll_read` is
--   a function of the reader's state; a poll's result also tells the call of `PutHandle::finalize` that
--   it makes. The body and the handle are a parameter (Tee.Streams). Tee.Ends is about the end of a body,
--   Tee.Keeps about what is written.
-- * Storage (src/storage.rs) has the key, and in Storage.Traits the operations of the traits as a record
--   over a state, with what their documentation rules out as the laws of a second record, `IsLawful`.
--   The storage in memory and the tiered one fill it, and the handlers take it. Storage.Ledger runs any
--   sequence of the operations beside a ledger of what has been written. Storage.Copy is
--   the loop that copies a body into a storage, which the client and the tiered storage share.
-- * Server (src/server.rs) is the handler of the server: `run` looks for a stored candidate before the
--   other handlers, and `before_send` stores, revalidates or invalidates behind them. The state of the
--   storage is passed on. Bodies holds what the handlers call of the bodies of trillium_http, with laws
--   on a body that is made of a source of this repository, of which a reader's polls are the premises.
-- * Client (src/client.rs) is the handler of a client. Its `after_response` is `settle` here, with the
--   rest of what runs behind the network in Client.Settling. A background revalidation is a value that
--   `run` leaves and `background_revalidation` takes, with what the network answers as an argument.
-- * Tiered (src/tiered.rs) puts one storage in front of another. The flushes that it spawns wait in its
--   state, and each runs as one step.
-- * Fs (src/fs.rs) is the storage in a directory. The files, the capacity index, SHA-256 and the encoding
--   of rkyv are a parameter (Fs.Disk), and paths are relative to the root. Fs.Scan constructs it.
-- A method of `CachePolicy` takes the policy as its first argument. Prelude, Text and Time hold what
-- the parts share: Boolean tests, strings as lists of code points, and `Duration` and `SystemTime` as
-- nanoseconds, where the operators that panic give a `Run`. Tests holds examples over a concrete
-- instance of the other crates.
--
-- The headers, methods and statuses of trillium_http, the directives of trillium_caching_headers, the
-- dates of httpdate and the product with an `f32` are not code of this repository: they are the record
-- `Http`, which every module takes as an instance argument, with the documented laws that the proofs
-- use. A header's name is compared as that crate does, so letter case is its affair.
--
-- Bounds. A `Duration` holds 2 ^ 64 seconds: adding two of them panics beyond, and subtracting panics
-- below zero. `parse::<u64>` fails from 2 ^ 64 on. The two loops of `iter_etag_opaques` run on fuel:
-- each round drops a character at least, so the length of the header is enough. The loop of the tee
-- writes a byte at least in each round, so the number of pending bytes is enough. The loop that copies a
-- body reads a byte at least in each round, so the length of the body is enough; a body is taken to end.
--
-- Not modelled: the functions of src/fs_shims.rs, which pass calls on to tokio, async-std or async-fs, the
-- counters and debug output of the storages, and the examples. A handler reads the clock once in a call
-- of the model. A flush runs without interruption between its lookup in the hot tier and its commit.
pub mod Prelude
pub mod Text
pub mod Time
pub mod Http
pub mod Policy
pub mod Freshness
pub mod Storability
pub mod Validation
pub mod Storage
pub mod Memory
pub mod Tee
pub mod Bodies
pub mod Server
pub mod Tiered
pub mod Client
pub mod Fs
pub mod Tests
