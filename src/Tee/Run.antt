-- ===== src/Tee/Run.antt =====
-- A body that is read through the tee in many polls.
use trillium_cache.Prelude.{ℕ, ◌≡◌, ◌<◌, refl, sym, ap, ◌∙◌, Option, List, [], ◌∷◌, ◌++◌, All}
use mathlib.Core.List.{append-nil, append_assoc}
use mathlib.Core.Path.{subst}
use trillium_cache.Http.{Http}
use trillium_cache.Tee.Streams.{Streams as TeeStreams, gain}
use trillium_cache.Tee.{TeeingReader, new_reader, poll_read}
use trillium_cache.Tee.Whole.{IsTracking, Commits, poll_read-Passes}

module _ ⦃http : Http⦄ ⦃streams : TeeStreams⦄ where
  open http use {Headers}
  open streams use {Body, Writer, read, body_trailers, accepted, whole, yielded}

  -- The reader after polls into buffers of the given lengths.
  abbrev pub after : TeeingReader → List ℕ → TeeingReader
  after t [] = t
  after t (k ∷ ks) = after (poll_read t k).reader ks

  -- The bytes that the polls give to the caller.
  abbrev pub served : TeeingReader → List ℕ → List ℕ
  served t [] = []
  served t (k ∷ ks) = gain (poll_read t k).result ++ served (poll_read t k).reader ks

  -- The calls of `finalize` that the polls make.
  abbrev pub calls : TeeingReader → List ℕ → List (Option (Writer × Option Headers))
  calls t [] = []
  calls t (k ∷ ks) = (poll_read t k).finalized ∷ calls (poll_read t k).reader ks

  polls_lem :
      (t : TeeingReader) (ks : List ℕ)
      → All (λ k. 0 < k) ks
      → IsTracking t
      → (yielded (after t ks).upstream ≡ yielded t.upstream ++ served t ks)
        × All (Commits (whole t.upstream)) (calls t ks)
  polls_lem t [] pos h = (sym (append-nil (yielded t.upstream)), tt)
  polls_lem t (k ∷ ks) pos h =
      let (passed, same, tracking, committed) = poll_read-Passes t k pos.0 h in
      let (more, all) = polls_lem (poll_read t k).reader ks pos.1 tracking in
      (
        more
            ∙ ap (λ y. y ++ served (poll_read t k).reader ks) passed
            ∙ append_assoc (yielded t.upstream) (gain (poll_read t k).result) _,
        (committed, subst (λ x. All (Commits x) (calls (poll_read t k).reader ks)) same all),
      )

  -- Over any number of polls with room in their buffers, whatever the writer accepts, refuses or fails
  -- on and whatever the cap is, the caller gets exactly what the body gives out, in order; and each
  -- writer that is finalized has accepted the whole body.
  pub polls-new_reader :
      (body : Body) (w : Writer) (cap : ℕ) (ks : List ℕ)
      → All (λ k. 0 < k) ks
      → yielded body ≡ []
      → accepted w ≡ []
      → (served (new_reader body w cap) ks ≡ yielded (after (new_reader body w cap) ks).upstream)
        × All (Commits (whole body)) (calls (new_reader body w cap) ks)
  unfolding new_reader
  polls-new_reader body w cap ks pos start empty =
      let (passed, all) =
        polls_lem (new_reader body w cap) ks pos (append-nil (accepted w) ∙ empty ∙ sym start) in
      (sym (passed ∙ rw start refl), all)
