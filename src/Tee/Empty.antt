-- ===== src/Tee/Empty.antt =====
-- A poll of the tee with an empty buffer.
use trillium_cache.Prelude.{ℕ, ◌≡◌, inl, inr, refl, ap, ◌∙◌, Option, some, List, [], ◌∷◌, ◌++◌}
use trillium_cache.Http.{Http}
use trillium_cache.Tee.Streams.{ready, Streams as TeeStreams, gain}
use trillium_cache.Tee.{
  TeeState, active, aborted, finalizing, finished, TeeingReader, drain, drive, finish, read_active,
  poll_read,
}
use trillium_cache.Tee.Drain.{Poll-cases}
use trillium_cache.Tee.Run.{served, calls}

module _ ⦃http : Http⦄ ⦃streams : TeeStreams⦄ where
  open http use {Headers}
  open streams use {Writer, Finalize, finalize, poll, read, body_trailers}

  -- The writer has been finalized.
  abbrev IsOver : TeeState → Type 0
  IsOver (active w) = ⊥
  IsOver aborted = ⊥
  IsOver (finalizing future) = Unit
  IsOver finished = Unit

  drive-IsOver :
      (t : TeeingReader) (future : Finalize)
      → (gain (drive t future).0 ≡ []) × IsOver (drive t future).1.state
  unfolding drive
  drive-IsOver t future = elim (Poll-cases (poll future).0) [
    | inl e ↦ rw (e, drive) (refl, tt)
    | inr (inl e) ↦ rw (e, drive) (refl, tt)
    | inr (inr (u, e)) ↦ rw (e, drive) (refl, tt)
  ]

  poll-IsOver :
      (t : TeeingReader) (k : ℕ) (s : TeeState)
      → t.state ≡ s
      → IsOver s
      → (gain (poll_read t k).result ≡ []) × IsOver (poll_read t k).reader.state
  unfolding poll_read
  poll-IsOver t k (active w) e h = elim h [ ]
  poll-IsOver t k aborted e h = elim h [ ]
  poll-IsOver t k (finalizing future) e h = rw (e, poll_read) (drive-IsOver t future)
  poll-IsOver t k finished e h = rw (e, poll_read) (refl, rw e tt)

  served_over : (t : TeeingReader) (ks : List ℕ) → IsOver t.state → served t ks ≡ []
  served_over t [] h = refl
  served_over t (k ∷ ks) h =
      let (silent, over) = poll-IsOver t k t.state refl h in
      ap (λ y. y ++ served (poll_read t k).reader ks) silent
      ∙ served_over (poll_read t k).reader ks over

  finish-IsOver :
      (t : TeeingReader) (w : Writer)
      → (gain (finish t w).result ≡ [])
        × IsOver (finish t w).reader.state
        × ((finish t w).finalized ≡ some (w, (body_trailers t.upstream).0))
  unfolding finish
  finish-IsOver t w =
      let (trailers, upstream) = body_trailers t.upstream in
      let (silent, over) =
        drive-IsOver (record t { upstream = upstream; trailers = trailers })
          (finalize w trailers) in
      (silent, over, refl)

  -- Where all that is read is written, and the body answers an empty buffer with no byte, a poll with an
  -- empty buffer ends the reading: whatever the caller polls from there on, it gets no byte, and the
  -- writer is finalized at once, with what it has accepted by then.
  pub served-empty_buffer :
      (t : TeeingReader) (w : Writer) (ks : List ℕ)
      → t.state ≡ active w
      → t.unwritten ≡ []
      → (read t.upstream 0).0 ≡ ready []
      → (served t (0 ∷ ks) ≡ [])
        × ((trailers : Option Headers) × (calls t (0 ∷ ks)
              ≡ some (w, trailers) ∷ calls (poll_read t 0).reader ks))
  unfolding poll_read drain read_active
  served-empty_buffer t w ks e f g =
      let t' : TeeingReader = record t {
        upstream = (read t.upstream 0).1;
        state = active w;
        unwritten = [];
      } in
      let same : poll_read t 0 ≡ finish t' w =
        rw (e, poll_read) (rw f (rw (g, read_active) refl)) in
      let (silent, over, call) = finish-IsOver t' w in
      (
        ap (λ out. gain out.result ++ served out.reader ks) same
            ∙ ap (λ y. y ++ served (finish t' w).reader ks) silent
            ∙ served_over (finish t' w).reader ks over,
        (
          (body_trailers t'.upstream).0,
          ap (λ out. out.finalized ∷ calls (poll_read t 0).reader ks) same
              ∙ ap (λ c. c ∷ calls (poll_read t 0).reader ks) call,
        ),
      )
