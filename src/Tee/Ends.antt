-- ===== src/Tee/Ends.antt =====
-- How a body that is read through the tee ends: where its upstream ends, with the trailers of that or none.
use trillium_cache.Prelude.{
  ℕ, suc, ◌≡◌, ◌⊎◌, ◌<◌, inl, inr, refl, sym, ap, ◌∙◌, Option, none, List, [], ◌∷◌, ◌++◌, length,
  All, Bool-cases, ltb, ◌==◌, ◌+◌, min, ◌-◌,
}
use mathlib.Core.List.{append-nil, append_assoc}
use trillium_cache.Text.{u64_mod}
use trillium_cache.Http.{Http}
use trillium_cache.Tee.Streams.{Streams as TeeStreams, ready, gain}
use trillium_cache.Tee.{
  TeeState, active, aborted, finalizing, finished, TeeingReader, Polled, returns, Drained, blocked,
  drained, dropped, new_reader, drain, drive, finish, tee_bytes, read_active, read_through,
  poll_read, take_tee_trailers,
}
use trillium_cache.Tee.Drain.{Poll-cases}
use trillium_cache.Tee.Run.{after, served}

module _ ⦃http : Http⦄ ⦃streams : TeeStreams⦄ where
  open http use {Headers}
  open streams use {
    Body, Writer, read, body_trailers, poll_write, Finalize, finalize, poll, whole, yielded,
    whole-read, yielded-read, whole-trailers, yielded-trailers, read-end,
  }

  -- A reader gives what its upstream gives out, in order, and ends only where that does.
  abbrev pub PassesOn : TeeingReader → Type 0
  PassesOn t =
      (ks : List ℕ)
      → All (λ k. 0 < k) ks
      → (yielded (after t ks).upstream ≡ yielded t.upstream ++ served t ks)
        × ((k : ℕ)
            → 0 < k
            → (poll_read (after t ks) k).result ≡ ready []
            → yielded (after t ks).upstream ≡ whole t.upstream)

  -- What a reader that may end gives for trailers: these or none.
  abbrev pub EndsWith : TeeingReader → Option Headers → Type 0
  EndsWith t x =
      (ks : List ℕ)
      → All (λ k. 0 < k) ks
      → ((take_tee_trailers (after t ks)).0 ≡ x) ⊎ ((take_tee_trailers (after t ks)).0 ≡ none)

  module _ (ends : Body → Option Headers)
      (ends-read : (b : Body) (k : ℕ) → ends (read b k).1 ≡ ends b)
      (trailers-end : (b : Body) → yielded b ≡ whole b → (body_trailers b).0 ≡ ends b)
      (all : List ℕ) (x : Option Headers) where
    abbrev At : TeeState → Body → Type 0
    At (active w) up = ends up ≡ x
    At aborted up = ends up ≡ x
    At (finalizing future) up = yielded up ≡ all
    At finished up = yielded up ≡ all

    abbrev IsHonest : TeeingReader → Type 0
    IsHonest t =
        ((t.trailers ≡ x) ⊎ (t.trailers ≡ none)) × (whole t.upstream ≡ all) × At t.state t.upstream

    abbrev Tells : TeeingReader → Polled → Type 0
    Tells t out =
        IsHonest out.reader
        × (yielded out.reader.upstream ≡ yielded t.upstream ++ gain out.result)
        × (out.result ≡ ready [] → yielded out.reader.upstream ≡ all)

    at_end :
        (up : Body) (k : ℕ)
        → 0 < k
        → (read up k).0 ≡ ready []
        → yielded (read up k).1 ≡ whole (read up k).1
    at_end up k pos e =
        yielded-read up k
        ∙ ap (λ r. yielded up ++ gain r) e
        ∙ append-nil (yielded up)
        ∙ read-end up k pos e
        ∙ sym (whole-read up k)

    read_through-Tells :
        (t : TeeingReader) (k : ℕ)
        → 0 < k
        → ((t.trailers ≡ x) ⊎ (t.trailers ≡ none))
        → whole t.upstream ≡ all
        → ends t.upstream ≡ x
        → Tells t (read_through t k)
    unfolding read_through
    read_through-Tells t k pos h w e = (
      (h, whole-read t.upstream k ∙ w, ends-read t.upstream k ∙ e),
      yielded-read t.upstream k,
      λ f. at_end t.upstream k pos f ∙ whole-read t.upstream k ∙ w,
    )

    drive-Tells :
        (t : TeeingReader) (future : Finalize)
        → ((t.trailers ≡ x) ⊎ (t.trailers ≡ none))
        → whole t.upstream ≡ all
        → yielded t.upstream ≡ all
        → Tells t (returns (drive t future).0 (drive t future).1)
    unfolding drive
    drive-Tells t future h w e = elim (Poll-cases (poll future).0) [
      | inl f ↦ rw (f, drive) ((h, w, e), sym (append-nil (yielded t.upstream)), λ g. e)
      | inr (inl f) ↦ rw (f, drive) ((h, w, e), sym (append-nil (yielded t.upstream)), λ g. e)
      | inr (inr (u, f)) ↦ rw (f, drive) ((h, w, e), sym (append-nil (yielded t.upstream)), λ g. e)
    ]

    -- bytes for the caller leave the reader open
    tee_bytes-IsHonest :
        (t : TeeingReader) (w : Writer) (bytes : List ℕ)
        → ((t.trailers ≡ x) ⊎ (t.trailers ≡ none))
        → whole t.upstream ≡ all
        → ends t.upstream ≡ x
        → IsHonest (tee_bytes t w bytes) × ((tee_bytes t w bytes).upstream ≡ t.upstream)
    unfolding tee_bytes
    tee_bytes-IsHonest t w bytes h g e =
        elim (Bool-cases (ltb t.cap (min (t.bytes_written + length bytes) (u64_mod - 1)))) [
          | inl c ↦ rw (c, tee_bytes) ((h, g, e), refl)
          | inr c ↦ elim (Poll-cases (poll_write w bytes).0) [
            | inl f ↦ rw (c, tee_bytes) (rw f ((h, g, e), refl))
            | inr (inl f) ↦ rw (c, tee_bytes) (rw f ((h, g, e), refl))
            | inr (inr (n, f)) ↦ elim (Bool-cases (n == 0)) [
              | inl z ↦ rw (c, tee_bytes) (rw f (rw z ((h, g, e), refl)))
              | inr z ↦ rw (c, tee_bytes) (rw f (rw z ((h, g, e), refl)))
            ]
          ]
        ]

    -- the reader after a read from upstream
    abbrev after_read : TeeingReader → Writer → ℕ → TeeingReader
    after_read t w k = record t {
      upstream = (read t.upstream k).1;
      state = active w;
      unwritten = [];
    }

    finish-Tells :
        (t : TeeingReader) (w : Writer) (k : ℕ)
        → 0 < k
        → whole t.upstream ≡ all
        → ends t.upstream ≡ x
        → (read t.upstream k).0 ≡ ready []
        → Tells t (finish (after_read t w k) w)
    unfolding finish
    finish-Tells t w k pos g e f =
        let up = (read t.upstream k).1 in
        let done = at_end t.upstream k pos f in
        let (trailers, upstream) = body_trailers up in
        let t' : TeeingReader = record (after_read t w k) {
          upstream = upstream;
          trailers = trailers;
        } in
        let still : yielded t.upstream ≡ yielded upstream = sym (
          yielded-trailers up
          ∙ yielded-read t.upstream k
          ∙ ap (λ r. yielded t.upstream ++ gain r) f
          ∙ append-nil (yielded t.upstream)) in
        let (honest, passed, ended) =
          drive-Tells t' (finalize w trailers)
            (inl (trailers-end up done ∙ ends-read t.upstream k ∙ e))
            (whole-trailers up ∙ whole-read t.upstream k ∙ g)
            (yielded-trailers up ∙ done ∙ whole-read t.upstream k ∙ g) in
        (honest, passed ∙ ap (λ y. y ++ gain (drive t' (finalize w trailers)).0) (sym still), ended)

    read_active-Tells :
        (t : TeeingReader) (w : Writer) (k : ℕ)
        → 0 < k
        → ((t.trailers ≡ x) ⊎ (t.trailers ≡ none))
        → whole t.upstream ≡ all
        → ends t.upstream ≡ x
        → Tells t (read_active t w k)
    unfolding read_active
    read_active-Tells t w k pos h g e =
        let g' = whole-read t.upstream k ∙ g in
        let e' = ends-read t.upstream k ∙ e in
        let passed = yielded-read t.upstream k in
        elim (Poll-cases (read t.upstream k).0) [
          | inl f ↦
              rw (f, read_active)
                ((h, g', e'), passed ∙ ap (λ r. yielded t.upstream ++ gain r) f, λ n. absurd (cc n))
          | inr (inl f) ↦
              rw (f, read_active)
                ((h, g', e'), passed ∙ ap (λ r. yielded t.upstream ++ gain r) f, λ n. absurd (cc n))
          | inr (inr ([], f)) ↦ rw (f, read_active) (finish-Tells t w k pos g e f)
          | inr (inr (b ∷ bytes, f)) ↦
              let (honest, up) = tee_bytes-IsHonest (after_read t w k) w (b ∷ bytes) h g' e' in
              rw (f, read_active)
                (
                  honest,
                  ap yielded up ∙ passed ∙ ap (λ r. yielded t.upstream ++ gain r) f,
                  λ n. absurd (cc n),
                )
        ]

    after_drain :
        (t : TeeingReader) (k : ℕ) (w : Writer) (d : Drained)
        → 0 < k
        → t.state ≡ active w
        → drain (suc (length t.unwritten)) w t.unwritten ≡ d
        → ((t.trailers ≡ x) ⊎ (t.trailers ≡ none))
        → whole t.upstream ≡ all
        → ends t.upstream ≡ x
        → Tells t (poll_read t k)
    unfolding poll_read
    after_drain t k w (blocked w' bytes) pos e f h g q =
        rw (e, poll_read)
          (rw f ((h, g, q), sym (append-nil (yielded t.upstream)), λ n. absurd (cc n)))
    after_drain t k w (drained w') pos e f h g q =
        rw (e, poll_read) (rw f (read_active-Tells t w' k pos h g q))
    after_drain t k w dropped pos e f h g q =
        rw (e, poll_read) (rw f (read_through-Tells t k pos h g q))

    in_state :
        (t : TeeingReader) (k : ℕ) (s : TeeState)
        → 0 < k
        → t.state ≡ s
        → ((t.trailers ≡ x) ⊎ (t.trailers ≡ none))
        → whole t.upstream ≡ all
        → At s t.upstream
        → Tells t (poll_read t k)
    unfolding poll_read
    in_state t k (active w) pos e h g q =
        after_drain t k w (drain (suc (length t.unwritten)) w t.unwritten) pos e refl h g q
    in_state t k aborted pos e h g q = rw (e, poll_read) (read_through-Tells t k pos h g q)
    in_state t k (finalizing future) pos e h g q = rw (e, poll_read) (drive-Tells t future h g q)
    in_state t k finished pos e h g q =
        rw (e, poll_read) ((h, g, rw e q), sym (append-nil (yielded t.upstream)), λ n. q)

    poll_read-Tells : (t : TeeingReader) (k : ℕ) → 0 < k → IsHonest t → Tells t (poll_read t k)
    poll_read-Tells t k pos (h, g, q) = in_state t k t.state pos refl h g q

    after-IsHonest :
        (t : TeeingReader) (ks : List ℕ)
        → All (λ k. 0 < k) ks
        → IsHonest t
        → IsHonest (after t ks)
          × (yielded (after t ks).upstream ≡ yielded t.upstream ++ served t ks)
    after-IsHonest t [] pos h = (h, sym (append-nil (yielded t.upstream)))
    after-IsHonest t (k ∷ ks) pos h =
        let (honest, passed, _) = poll_read-Tells t k pos.0 h in
        let (later, more) = after-IsHonest (poll_read t k).reader ks pos.1 honest in
        (
          later,
          more
              ∙ ap (λ y. y ++ served (poll_read t k).reader ks) passed
              ∙ append_assoc (yielded t.upstream) (gain (poll_read t k).result) _,
        )

    end_of :
        (t : TeeingReader) (k : ℕ)
        → 0 < k
        → IsHonest t
        → (poll_read t k).result ≡ ready []
        → yielded t.upstream ≡ all
    end_of t k pos h e =
        let (_, passed, ended) = poll_read-Tells t k pos h in
        sym (append-nil (yielded t.upstream))
        ∙ ap (λ r. yielded t.upstream ++ gain r) (sym e)
        ∙ sym passed
        ∙ ended e

  -- A new tee passes on its body, whatever the writer does, and gives its trailers or none.
  module _ (ends : Body → Option Headers)
      (ends-read : (b : Body) (k : ℕ) → ends (read b k).1 ≡ ends b)
      (trailers-end : (b : Body) → yielded b ≡ whole b → (body_trailers b).0 ≡ ends b) where
    pub new_reader-PassesOn :
        (body : Body) (w : Writer) (cap : ℕ) → PassesOn (new_reader body w cap)
    unfolding new_reader
    new_reader-PassesOn body w cap ks pos =
        let (honest, passed) =
          after-IsHonest ends ends-read trailers-end (whole body) (ends body)
            (new_reader body w cap) ks pos (inr refl, refl, refl) in
        (
          passed,
          λ k more e.
              end_of ends ends-read trailers-end (whole body) (ends body)
                (after (new_reader body w cap) ks) k more honest e,
        )

    pub new_reader-EndsWith :
        (body : Body) (w : Writer) (cap : ℕ) → EndsWith (new_reader body w cap) (ends body)
    unfolding new_reader take_tee_trailers
    new_reader-EndsWith body w cap ks pos =
        (after-IsHonest ends ends-read trailers-end (whole body) (ends body) (new_reader body w cap)
          ks pos (inr refl, refl, refl)).0.0
