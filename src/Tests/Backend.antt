-- ===== src/Tests/Backend.antt =====
-- Concrete URLs, bodies and a storage for the examples: the storage in memory over a map that never drops
-- anything, whose handles accept one byte at a time.
use trillium_cache.Prelude.{
  ℕ, zero, suc, ◌≡◌, ◌⊎◌, ◌≤◌, ◌<◌, ◌∙◌, inl, refl, sym, ap, Option, none, some, List, [], ◌∷◌,
  ◌++◌, arith, if◌then◌else◌, ==_iff, ◌==◌, length, length-append,
}
use mathlib.Core.List.{append-nil, append_assoc}
use trillium_cache.Text.{codes}
use trillium_cache.Storage.{Urls, CacheKey, key_eq}
use trillium_cache.Storage.Traits.{CacheStorage}
use trillium_cache.Memory.Moka.{MokaCache, outcome}
use trillium_cache.Memory.{
  Bucket, InMemoryPutHandle, ReplayBodySource, read_replay, take_trailers, write, take, drop,
}
use trillium_cache.Memory.Replay.{reads, read_on, reads_unique, trailers-read_on}
use trillium_cache.Memory.Storage.{memory_storage}
use trillium_cache.Tee.Streams.{Poll, pending, ready, failed, Streams as TeeStreams}
use trillium_cache.Tee.{TeeingReader, poll_read, take_tee_trailers}
use trillium_cache.Tee.Run.{after, served}
use trillium_cache.Tee.Ends.{PassesOn, EndsWith}
use trillium_cache.Tee.Drain.{take-drop}
use trillium_cache.Bodies.{HttpBodies}
use trillium_cache.Tests.World.{world}

instance abbrev pub urls : Urls
urls = record {
  Url = ℕ;
  url_eq = λ a b. a == b;
  url_eq_iff = ==_iff;
  parse_url = λ s. some (length s);
  join_url = λ u s. some (length s);
  host_str = λ u. some (codes "example.org");
}

instance abbrev pub map_of_buckets : MokaCache CacheKey Bucket key_eq
map_of_buckets = record {
  Cache = CacheKey → Option Bucket;
  build = λ weigher capacity idle live k. none;
  content = λ c k. c k;
  upsert = λ c k f j. if key_eq k j then some (f (c k)) else c j;
  compute = λ c k f j. if key_eq k j then outcome (f (c k)) (c k) else c j;
  invalidate = λ c k j. if key_eq k j then none else c j;
  content-build = λ w capacity idle live k. refl;
  content-upsert = λ c k j f. inl refl;
  content-compute = λ c k j f. inl refl;
  content-invalidate = λ c k j. inl refl;
}

-- no byte is left where none comes
pub all_read : (given rest : List ℕ) (k : ℕ) → 0 < k → take k rest ≡ [] → given ≡ given ++ rest
all_read given [] k pos e = sym (append-nil given)
all_read given (b ∷ rest) zero pos e = absurd (omega (arith, pos))
all_read given (b ∷ rest) (suc k) pos e = absurd (cc e)

pub written :
    (w : InMemoryPutHandle) (buf : List ℕ)
    → (write w (take 1 buf)).0.buffer ≡ w.buffer ++ take 1 buf
unfolding write
written w buf = refl

pub all_polled :
    (given rest : List ℕ) (k : ℕ) → 0 < k → ready (take k rest) ≡ ready [] → given ≡ given ++ rest
all_polled given rest k pos e = all_read given rest k pos (cc e)

pub all_chunks :
    (given rest : List ℕ) (k : ℕ) → 0 < k → some (take k rest) ≡ some [] → given ≡ given ++ rest
all_chunks given rest k pos e = all_read given rest k pos (cc e)

-- A body is what it has given out, what is left, and its trailers.
abbrev pub ListBody : Type 0
ListBody = List ℕ × List ℕ × Option world.Headers

pub same_whole : (b : ListBody) (k : ℕ) → (b.0 ++ take k b.1) ++ drop k b.1 ≡ b.0 ++ b.1
same_whole b k = append_assoc b.0 (take k b.1) (drop k b.1) ∙ ap (λ r. b.0 ++ r) (take-drop k b.1)

instance abbrev pub lists : TeeStreams
lists = record {
  Body = ListBody;
  read = λ b k. (ready (take k b.1), (b.0 ++ take k b.1, drop k b.1, b.2));
  body_trailers = λ b. (b.2, b);
  whole = λ b. b.0 ++ b.1;
  yielded = λ b. b.0;
  whole-read = same_whole;
  yielded-read = λ b k. refl;
  whole-trailers = λ b. refl;
  yielded-trailers = λ b. refl;
  read-end = λ b k. all_polled b.0 b.1 k;
  Writer = InMemoryPutHandle;
  poll_write = λ w buf. (ready 1, (write w (take 1 buf)).0);
  accepted = λ w. w.buffer;
  accepted-poll_write = written;
  Finalize = InMemoryPutHandle × Option world.Headers;
  finalize = λ w trailers. (w, trailers);
  poll = λ f. (ready tt, f);
}

pub not_longer : (given rest : List ℕ) → length given ≤ length (given ++ rest)
not_longer given rest = omega (arith, length-append given rest)

-- What is read of a tee: a poll into a buffer of all that its upstream has left, and what a poll behind
-- it says of the end. A tee that has not ended then is read later, and has the bytes of its upstream.
abbrev pub polls : TeeingReader → List ℕ
polls t = suc (length t.upstream.1) ∷ []

abbrev pub buffered : TeeingReader → Poll (List ℕ) → ListBody
buffered t (ready []) = ([], served t (polls t), (take_tee_trailers (after t (polls t))).0)
buffered t (ready (b ∷ bytes)) =
    ([], lists.whole t.upstream, (take_tee_trailers (after t (polls t))).0)
buffered t pending = ([], lists.whole t.upstream, (take_tee_trailers (after t (polls t))).0)
buffered t failed = ([], lists.whole t.upstream, (take_tee_trailers (after t (polls t))).0)

abbrev pub read_tee : TeeingReader → ListBody
read_tee t = buffered t (poll_read (after t (polls t)) 1).result

buffered_yielded : (t : TeeingReader) (r : Poll (List ℕ)) → lists.yielded (buffered t r) ≡ []
buffered_yielded t (ready []) = refl
buffered_yielded t (ready (b ∷ bytes)) = refl
buffered_yielded t pending = refl
buffered_yielded t failed = refl

buffered_whole :
    (t : TeeingReader) (r : Poll (List ℕ))
    → (poll_read (after t (polls t)) 1).result ≡ r
    → t.upstream.0 ≡ []
    → PassesOn t
    → lists.whole (buffered t r) ≡ lists.whole t.upstream
buffered_whole t (ready []) e start passes =
    let (passed, ended) = passes (polls t) (omega arith, tt) in
    ap (λ y. y ++ served t (polls t)) (sym start) ∙ sym passed ∙ ended 1 (omega arith) e
buffered_whole t (ready (b ∷ bytes)) e start passes = refl
buffered_whole t pending e start passes = refl
buffered_whole t failed e start passes = refl

buffered_trailers :
    (t : TeeingReader) (r : Poll (List ℕ))
    → (buffered t r).2 ≡ (take_tee_trailers (after t (polls t))).0
buffered_trailers t (ready []) = refl
buffered_trailers t (ready (b ∷ bytes)) = refl
buffered_trailers t pending = refl
buffered_trailers t failed = refl

pub yielded_tee : (t : TeeingReader) (n : Option ℕ) → lists.yielded (read_tee t) ≡ []
yielded_tee t n = buffered_yielded t (poll_read (after t (polls t)) 1).result

pub whole_tee :
    (t : TeeingReader) (n : Option ℕ)
    → lists.yielded t.upstream ≡ []
    → PassesOn t
    → lists.whole (read_tee t) ≡ lists.whole t.upstream
whole_tee t n start passes =
    buffered_whole t (poll_read (after t (polls t)) 1).result refl start passes

pub ends_tee :
    (t : TeeingReader) (n : Option ℕ) (x : Option world.Headers)
    → EndsWith t x
    → ((read_tee t).2 ≡ x) ⊎ ((read_tee t).2 ≡ none)
ends_tee t n x ends =
    rw (buffered_trailers t (poll_read (after t (polls t)) 1).result)
      (ends (polls t) (omega arith, tt))

-- What is read of a stored body, in one read.
abbrev pub read_stored : ReplayBodySource → ListBody
read_stored r = ([], reads r (length r.body ∷ []), (take_trailers r).0)

pub replay_whole :
    (r : ReplayBodySource) (n : Option ℕ) (ks : List ℕ) (k : ℕ)
    → 0 < k
    → (read_replay (read_on r ks) k).0 ≡ []
    → reads r (length r.body ∷ []) ≡ reads r ks
replay_whole r n ks k pos e = reads_unique r ks k pos e

pub replay_trailers :
    (r : ReplayBodySource) (n : Option ℕ) (ks : List ℕ) (k : ℕ)
    → 0 < k
    → (read_replay (read_on r ks) k).0 ≡ []
    → (take_trailers r).0 ≡ (take_trailers (read_replay (read_on r ks) k).1).0
replay_trailers r n ks k pos e = sym (trailers-read_on r ks k)

instance abbrev pub http_bodies : HttpBodies
http_bodies = record {
  empty_body = ([], [], none);
  body_len = λ b. some (length b.1);
  without_chunked_framing = λ b. b;
  content_length = λ b. some (length b.1);
  body_of_response = λ b len. b;
  body_of_tee = λ t len. read_tee t;
  body_of_replay = λ r len. read_stored r;
  ends_with = λ b. b.2;
  read_chunk = λ b k. (some (take k b.1), (b.0 ++ take k b.1, drop k b.1, b.2));
  yielded-read_chunk = λ b k. refl;
  whole-read_chunk = same_whole;
  ends_with-read_chunk = λ b k. refl;
  read_chunk-end = λ b k. all_chunks b.0 b.1 k;
  trailers-end = λ b e. refl;
  length-yielded = λ b. not_longer b.0 b.1;
  ends_with-read = λ b k. refl;
  yielded-replay = λ r n. refl;
  whole-replay = replay_whole;
  ends_with-replay = replay_trailers;
  yielded-tee = yielded_tee;
  whole-tee = whole_tee;
  ends_with-tee = ends_tee;
}

instance abbrev pub storage : CacheStorage ListBody InMemoryPutHandle
storage = memory_storage
