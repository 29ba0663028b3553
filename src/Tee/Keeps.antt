-- ===== src/Tee/Keeps.antt =====
-- What every write keeps of the writer holds where the tee finalizes it.
use trillium_cache.Prelude.{
  ℕ, zero, suc, ◌≡◌, inl, inr, refl, Option, none, some, List, [], ◌∷◌, length, All, Bool-cases,
  ltb, ◌==◌, ◌+◌, min, ◌-◌,
}
use trillium_cache.Text.{u64_mod}
use trillium_cache.Http.{Http}
use trillium_cache.Memory.{drop}
use trillium_cache.Tee.Streams.{Streams as TeeStreams}
use trillium_cache.Tee.{
  TeeState, active, aborted, finalizing, finished, TeeingReader, Polled, Drained, blocked, drained,
  dropped, new_reader, drain, drive, finish, tee_bytes, read_active, read_through, poll_read,
}
use trillium_cache.Tee.Drain.{Poll-cases}
use trillium_cache.Tee.Run.{calls}

module _ ⦃http : Http⦄ ⦃streams : TeeStreams⦄ where
  open http use {Headers}
  open streams use {Body, Writer, read, body_trailers, poll_write, Finalize, finalize, poll}

  module _ (P : Writer → Type 0) where
    abbrev pub IsKept : TeeState → Type 0
    IsKept (active w) = P w
    IsKept aborted = Unit
    IsKept (finalizing future) = Unit
    IsKept finished = Unit

    abbrev pub Finalizes : Option (Writer × Option Headers) → Type 0
    Finalizes none = Unit
    Finalizes (some (w, trailers)) = P w

    -- A poll leaves a writer with the property, or finalizes one.
    abbrev pub Keeps : Polled → Type 0
    Keeps out = IsKept out.reader.state × Finalizes out.finalized

    abbrev Leaves : Drained → Type 0
    Leaves (blocked w bytes) = P w
    Leaves (drained w) = P w
    Leaves dropped = Unit

  module _ (P : Writer → Type 0)
      (keeps : (w : Writer) (buf : List ℕ) → P w → P (poll_write w buf).1) where
    drain-Leaves : (fuel : ℕ) (w : Writer) (bytes : List ℕ) → P w → Leaves P (drain fuel w bytes)
    unfolding drain
    drain-Leaves zero w bytes h = tt
    drain-Leaves (suc fuel) w [] h = h
    drain-Leaves (suc fuel) w (b ∷ bytes) h = elim (Poll-cases (poll_write w (b ∷ bytes)).0) [
      | inl e ↦ rw (e, drain) (keeps w (b ∷ bytes) h)
      | inr (inl e) ↦ rw (e, drain) tt
      | inr (inr (n, e)) ↦ elim (Bool-cases (n == 0)) [
        | inl z ↦ rw (e, drain) (rw z tt)
        | inr z ↦
            rw (e, drain)
              (rw z (
                drain-Leaves fuel (poll_write w (b ∷ bytes)).1 (drop n (b ∷ bytes))
                  (keeps w (b ∷ bytes) h)))
      ]
    ]

    drive-IsKept : (t : TeeingReader) (future : Finalize) → IsKept P (drive t future).1.state
    unfolding drive
    drive-IsKept t future = elim (Poll-cases (poll future).0) [
      | inl e ↦ rw (e, drive) tt
      | inr (inl e) ↦ rw (e, drive) tt
      | inr (inr (u, e)) ↦ rw (e, drive) tt
    ]

    tee_bytes-IsKept :
        (t : TeeingReader) (w : Writer) (bytes : List ℕ)
        → P w
        → IsKept P (tee_bytes t w bytes).state
    unfolding tee_bytes
    tee_bytes-IsKept t w bytes h =
        elim (Bool-cases (ltb t.cap (min (t.bytes_written + length bytes) (u64_mod - 1)))) [
          | inl c ↦ rw (c, tee_bytes) tt
          | inr c ↦ elim (Poll-cases (poll_write w bytes).0) [
            | inl e ↦ rw (c, tee_bytes) (rw e (keeps w bytes h))
            | inr (inl e) ↦ rw (c, tee_bytes) (rw e tt)
            | inr (inr (n, e)) ↦ elim (Bool-cases (n == 0)) [
              | inl z ↦ rw (c, tee_bytes) (rw e (rw z tt))
              | inr z ↦ rw (c, tee_bytes) (rw e (rw z (keeps w bytes h)))
            ]
          ]
        ]

    finish-Keeps : (t : TeeingReader) (w : Writer) → P w → Keeps P (finish t w)
    unfolding finish
    finish-Keeps t w h =
        let (trailers, upstream) = body_trailers t.upstream in
        (
          drive-IsKept (record t { upstream = upstream; trailers = trailers })
              (finalize w trailers),
          h,
        )

    -- the reader after a read from upstream
    abbrev after_read : TeeingReader → Writer → ℕ → TeeingReader
    after_read t w k = record t {
      upstream = (read t.upstream k).1;
      state = active w;
      unwritten = [];
    }

    read_active-Keeps : (t : TeeingReader) (w : Writer) (k : ℕ) → P w → Keeps P (read_active t w k)
    unfolding read_active
    read_active-Keeps t w k h = elim (Poll-cases (read t.upstream k).0) [
      | inl e ↦ rw (e, read_active) (h, tt)
      | inr (inl e) ↦ rw (e, read_active) (h, tt)
      | inr (inr ([], e)) ↦ rw (e, read_active) (finish-Keeps (after_read t w k) w h)
      | inr (inr (b ∷ bytes, e)) ↦
          rw (e, read_active) (tee_bytes-IsKept (after_read t w k) w (b ∷ bytes) h, tt)
    ]

    after_drain :
        (t : TeeingReader) (k : ℕ) (w : Writer) (d : Drained)
        → t.state ≡ active w
        → drain (suc (length t.unwritten)) w t.unwritten ≡ d
        → Leaves P d
        → Keeps P (poll_read t k)
    unfolding poll_read read_through
    after_drain t k w (blocked w' bytes) e f h = rw (e, poll_read) (rw f (h, tt))
    after_drain t k w (drained w') e f h = rw (e, poll_read) (rw f (read_active-Keeps t w' k h))
    after_drain t k w dropped e f h = rw (e, poll_read) (rw f (tt, tt))

    in_state :
        (t : TeeingReader) (k : ℕ) (s : TeeState)
        → t.state ≡ s
        → IsKept P s
        → Keeps P (poll_read t k)
    unfolding poll_read read_through
    in_state t k (active w) e h =
        after_drain t k w (drain (suc (length t.unwritten)) w t.unwritten) e refl
          (drain-Leaves (suc (length t.unwritten)) w t.unwritten h)
    in_state t k aborted e h = rw (e, poll_read) (tt, tt)
    in_state t k (finalizing future) e h = rw (e, poll_read) (drive-IsKept t future, tt)
    in_state t k finished e h = rw (e, poll_read) (rw e tt, tt)

    calls-Finalizes :
        (t : TeeingReader) (ks : List ℕ) → IsKept P t.state → All (Finalizes P) (calls t ks)
    calls-Finalizes t [] h = tt
    calls-Finalizes t (k ∷ ks) h =
        let (kept, call) = in_state t k t.state refl h in
        (call, calls-Finalizes (poll_read t k).reader ks kept)

    -- What each write keeps of the writer holds of every writer that a new tee finalizes, if it holds at
    -- the start.
    pub calls-new_reader :
        (body : Body) (w : Writer) (cap : ℕ) (ks : List ℕ)
        → P w
        → All (Finalizes P) (calls (new_reader body w cap) ks)
    unfolding new_reader
    calls-new_reader body w cap ks h = calls-Finalizes (new_reader body w cap) ks h
