-- ===== src/Tee/Whole.antt =====
-- What the caller and the storage get of a body that is read through the tee.
use trillium_cache.Prelude.{
  ℕ, suc, ◌+◌, ◌-◌, ◌<◌, ◌≡◌, inl, inr, refl, sym, ap, ◌∙◌, Option, none, some, List, [], ◌∷◌, ◌++◌,
  arith, length, ltb, ◌==◌, Bool-cases, min,
}
use mathlib.Core.List.{append-nil}
use trillium_cache.Text.{u64_mod}
use trillium_cache.Http.{Http}
use trillium_cache.Memory.Replay.{drop-all}
use trillium_cache.Tee.Streams.{Poll, pending, ready, failed, Streams as TeeStreams, gain}
use trillium_cache.Tee.{
  TeeState, active, aborted, finalizing, finished, TeeingReader, Polled, returns, Drained, blocked,
  drained, dropped, drain, drive, finish, tee_bytes, read_active, read_through, poll_read,
}
use trillium_cache.Tee.Drain.{Accounts, written_lem, blocked_lem, Poll-cases, drain_lem}

module _ ⦃http : Http⦄ ⦃streams : TeeStreams⦄ where
  open http use {Headers}
  open streams use {
    Body, read, body_trailers, Writer, poll_write, Finalize, finalize, poll, accepted,
    accepted-poll_write, whole, yielded, whole-read, yielded-read, whole-trailers, yielded-trailers,
    read-end,
  }

  -- While the writer is active, it has accepted what the body has given out, but for the bytes that
  -- are still to be written.
  abbrev pub Tracks : TeeState → List ℕ → List ℕ → Type 0
  Tracks (active w) unwritten total = accepted w ++ unwritten ≡ total
  Tracks aborted unwritten total = Unit
  Tracks (finalizing future) unwritten total = Unit
  Tracks finished unwritten total = Unit

  abbrev pub IsTracking : TeeingReader → Type 0
  IsTracking t = Tracks t.state t.unwritten (yielded t.upstream)

  -- A writer is finalized with all that the body holds.
  abbrev pub Commits : List ℕ → Option (Writer × Option Headers) → Type 0
  Commits all none = Unit
  Commits all (some (w, trailers)) = accepted w ≡ all

  -- What a poll does, seen from outside.
  abbrev pub Passes : TeeingReader → Polled → Type 0
  Passes t out =
      (yielded out.reader.upstream ≡ yielded t.upstream ++ gain out.result)
      × (whole out.reader.upstream ≡ whole t.upstream)
      × IsTracking out.reader
      × Commits (whole t.upstream) out.finalized

  tee_bytes-upstream :
      (t : TeeingReader) (w : Writer) (bytes : List ℕ) → (tee_bytes t w bytes).upstream ≡ t.upstream
  unfolding tee_bytes
  tee_bytes-upstream t w bytes = ground arith

  tee_bytes-IsTracking :
      (t : TeeingReader) (w : Writer) (bytes : List ℕ)
      → t.unwritten ≡ []
      → accepted w ++ bytes ≡ yielded t.upstream
      → IsTracking (tee_bytes t w bytes)
  unfolding tee_bytes
  tee_bytes-IsTracking t w bytes empty h =
      elim (Bool-cases (ltb t.cap (min (t.bytes_written + length bytes) (u64_mod - 1)))) [
        | inl c ↦ rw (c, tee_bytes) tt
        | inr c ↦ elim (Poll-cases (poll_write w bytes).0) [
          | inl e ↦ rw (c, tee_bytes) (rw e (rw empty (blocked_lem w bytes e ∙ h)))
          | inr (inl e) ↦ rw (c, tee_bytes) (rw e tt)
          | inr (inr (n, e)) ↦ elim (Bool-cases (n == 0)) [
            | inl z ↦ rw (c, tee_bytes) (rw e (rw z tt))
            | inr z ↦ elim (Bool-cases (ltb n (length bytes))) [
              | inl l ↦ rw (c, tee_bytes) (rw e (rw (z, l, empty) (written_lem w bytes n e ∙ h)))
              | inr l ↦
                  rw (c, tee_bytes)
                    (rw e (
                      rw (z, l, empty)
                        (rw (← drop-all n bytes (ground (arith, l)))
                          (written_lem w bytes n e ∙ h))))
            ]
          ]
        ]
      ]

  read_through-Passes : (t : TeeingReader) (k : ℕ) → Passes t (read_through t k)
  unfolding read_through
  read_through-Passes t k = (yielded-read t.upstream k, whole-read t.upstream k, tt, tt)

  drive_lem :
      (t : TeeingReader) (future : Finalize)
      → (gain (drive t future).0 ≡ [])
        × ((drive t future).1.upstream ≡ t.upstream)
        × IsTracking (drive t future).1
  unfolding drive
  drive_lem t future = elim (Poll-cases (poll future).0) [
    | inl e ↦ rw (e, drive) (refl, refl, tt)
    | inr (inl e) ↦ rw (e, drive) (refl, refl, tt)
    | inr (inr (u, e)) ↦ rw (e, drive) (refl, refl, tt)
  ]

  -- a poll that yields no byte
  no_gain : (x y bytes : List ℕ) → x ≡ y → bytes ≡ [] → x ≡ y ++ bytes
  no_gain x y bytes e f = e ∙ sym (append-nil y) ∙ ap (λ r. y ++ r) (sym f)

  finish-Passes :
      (t : TeeingReader) (w : Writer) → accepted w ≡ whole t.upstream → Passes t (finish t w)
  unfolding finish
  finish-Passes t w h =
      let (trailers, upstream) = body_trailers t.upstream in
      let (silent, same, tracking) =
        drive_lem (record t { upstream = upstream; trailers = trailers }) (finalize w trailers) in
      (
        no_gain _ (yielded t.upstream) _ (ap yielded same ∙ yielded-trailers t.upstream) silent,
        ap whole same ∙ whole-trailers t.upstream,
        tracking,
        h,
      )

  -- the reader after a read from upstream
  abbrev after_read : TeeingReader → Writer → ℕ → TeeingReader
  after_read t w k = record t { upstream = (read t.upstream k).1; state = active w; unwritten = [] }

  at_end :
      (t : TeeingReader) (w : Writer) (k : ℕ)
      → 0 < k
      → accepted w ≡ yielded t.upstream
      → (read t.upstream k).0 ≡ ready []
      → Passes t (finish (after_read t w k) w)
  at_end t w k pos h e =
      let same : whole (read t.upstream k).1 ≡ whole t.upstream = whole-read t.upstream k in
      let still : yielded (read t.upstream k).1 ≡ yielded t.upstream =
        yielded-read t.upstream k ∙ rw e (append-nil (yielded t.upstream)) in
      let (passed, all, tracking, committed) =
        finish-Passes (after_read t w k) w (h ∙ read-end t.upstream k pos e ∙ sym same) in
      (passed ∙ rw still refl, all ∙ same, tracking, rw (← same) committed)

  with_bytes :
      (t : TeeingReader) (w : Writer) (k : ℕ) (bytes : List ℕ)
      → accepted w ≡ yielded t.upstream
      → (read t.upstream k).0 ≡ ready bytes
      → Passes t (returns (ready bytes) (tee_bytes (after_read t w k) w bytes))
  with_bytes t w k bytes h e =
      let up = tee_bytes-upstream (after_read t w k) w bytes in
      let passed : yielded (read t.upstream k).1 ≡ yielded t.upstream ++ bytes =
        yielded-read t.upstream k ∙ rw e refl in
      (
        ap yielded up ∙ passed,
        ap whole up ∙ whole-read t.upstream k,
        tee_bytes-IsTracking (after_read t w k) w bytes refl (rw h (sym passed)),
        tt,
      )

  without_bytes :
      (t : TeeingReader) (w : Writer) (k : ℕ) (r : Poll (List ℕ))
      → accepted w ≡ yielded t.upstream
      → (read t.upstream k).0 ≡ r
      → gain r ≡ []
      → Passes t (returns r (after_read t w k))
  without_bytes t w k r h e silent =
      let still : yielded (read t.upstream k).1 ≡ yielded t.upstream =
        yielded-read t.upstream k ∙ rw (e, silent) (append-nil (yielded t.upstream)) in
      (
        no_gain _ _ _ still silent,
        whole-read t.upstream k,
        append-nil (accepted w) ∙ h ∙ sym still,
        tt,
      )

  read_active-Passes :
      (t : TeeingReader) (w : Writer) (k : ℕ)
      → 0 < k
      → accepted w ≡ yielded t.upstream
      → Passes t (read_active t w k)
  unfolding read_active
  read_active-Passes t w k pos h = elim (Poll-cases (read t.upstream k).0) [
    | inl e ↦ rw (e, read_active) (without_bytes t w k pending h e refl)
    | inr (inl e) ↦ rw (e, read_active) (without_bytes t w k failed h e refl)
    | inr (inr ([], e)) ↦ rw (e, read_active) (at_end t w k pos h e)
    | inr (inr (b ∷ bytes, e)) ↦ rw (e, read_active) (with_bytes t w k (b ∷ bytes) h e)
  ]

  module _ (t : TeeingReader) (k : ℕ) (pos : 0 < k) where
    after_drain :
        (w : Writer) (d : Drained)
        → t.state ≡ active w
        → drain (suc (length t.unwritten)) w t.unwritten ≡ d
        → Accounts (yielded t.upstream) d
        → Passes t (poll_read t k)
    unfolding poll_read
    after_drain w (blocked w' bytes) e f h =
        rw (e, poll_read) (rw f (sym (append-nil (yielded t.upstream)), refl, h, tt))
    after_drain w (drained w') e f h = rw (e, poll_read) (rw f (read_active-Passes t w' k pos h))
    after_drain w dropped e f h = rw (e, poll_read) (rw f (read_through-Passes t k))

    in_state :
        (s : TeeState)
        → t.state ≡ s
        → Tracks s t.unwritten (yielded t.upstream)
        → Passes t (poll_read t k)
    unfolding poll_read
    in_state (active w) e h =
        after_drain w (drain (suc (length t.unwritten)) w t.unwritten) e refl
          (rw (← h) (drain_lem (suc (length t.unwritten)) w t.unwritten))
    in_state aborted e h = rw (e, poll_read) (read_through-Passes t k)
    in_state (finalizing future) e h =
        let (silent, same, tracking) = drive_lem t future in
        rw (e, poll_read) (no_gain _ _ _ (ap yielded same) silent, ap whole same, tracking, tt)
    in_state finished e h =
        rw (e, poll_read) (sym (append-nil (yielded t.upstream)), refl, rw e tt, tt)

  -- With room in the buffer, a poll hands the caller exactly the bytes that the body gives out,
  -- whatever the writer does; an active writer never misses or reorders one; and a writer that is
  -- finalized has accepted the whole body.
  pub poll_read-Passes :
      (t : TeeingReader) (k : ℕ) → 0 < k → IsTracking t → Passes t (poll_read t k)
  poll_read-Passes t k pos h = in_state t k pos t.state refl h
