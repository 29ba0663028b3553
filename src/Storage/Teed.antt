-- ===== src/Storage/Teed.antt =====
-- A body that is read through a tee into a handle of the storage.
use trillium_cache.Prelude.{
  ℕ, ◌≡◌, ◌⊎◌, ◌<◌, inl, inr, sym, ap, ◌∙◌, Option, none, some, List, [], ◌∷◌, All,
}
use trillium_cache.Http.{Http}
use trillium_cache.Policy.{CachePolicy}
use trillium_cache.Storage.{Urls, CacheKey}
use trillium_cache.Storage.Traits.{CacheStorage, IsLawful, Payload}
use trillium_cache.Tee.Streams.{Streams as TeeStreams}
use trillium_cache.Tee.{new_reader}
use trillium_cache.Tee.Whole.{Commits}
use trillium_cache.Tee.Run.{after, served, calls, polls-new_reader}
use trillium_cache.Tee.Keeps.{Finalizes, calls-new_reader}

module _ ⦃http : Http⦄ ⦃urls : Urls⦄ ⦃streams : TeeStreams⦄
    {S : CacheStorage streams.Body streams.Writer}
    {Holds : S.Store → CacheKey → CachePolicy → Payload → Type 0}
    {target : streams.Writer → CacheKey × CachePolicy} {Gives : streams.Body → Payload → Type 0}
    (laws : IsLawful S Holds streams.accepted target Gives) where
  open http use {Headers}
  open streams use {Body, Writer, poll_write, whole, yielded}

  -- A call of `finalize`, on whatever the storage is by then, adds the given bytes for the key and the
  -- policy, or nothing.
  abbrev pub Adds : CacheKey → CachePolicy → List ℕ → Option (Writer × Option Headers) → Type 0
  Adds key new bytes none = Unit
  Adds key new bytes (some (w, trailers)) =
      (later : S.Store) (k : CacheKey) (p : CachePolicy) (d : Payload)
      → Holds (S.finalize later w trailers).1 k p d
      → Holds later k p d ⊎ ((k ≡ key) × (p ≡ new) × (d ≡ (bytes, trailers)))

  module _ (aims : (w : Writer) (buf : List ℕ) → target (poll_write w buf).1 ≡ target w) where
    All-Adds :
        (key : CacheKey) (new : CachePolicy) (bytes : List ℕ)
        (calls : List (Option (Writer × Option Headers)))
        → All (Commits bytes) calls
        → All (Finalizes (λ w. target w ≡ (key, new))) calls
        → All (Adds key new bytes) calls
    All-Adds key new bytes [] c f = tt
    All-Adds key new bytes (none ∷ calls) c f = (tt, All-Adds key new bytes calls c.1 f.1)
    All-Adds key new bytes (some (w, trailers) ∷ calls) c f = (
      λ later k p d h. elim (laws.finalize-holds later w trailers k p d h) [
        | inl old ↦ inl old
        | inr (place, is) ↦
            let there = sym place ∙ f.0 in
            inr (ap (λ x. x.0) there, ap (λ x. x.1) there, is ∙ (λ i. (c.0 i, trailers)))
      ],
      All-Adds key new bytes calls c.1 f.1,
    )

    -- A new tee into a new handle gives what the body gives out, and adds the whole body or nothing.
    pub put-Adds :
        (store : S.Store) (key : CacheKey) (new : CachePolicy) (w : Writer) (body : Body) (cap : ℕ)
        (ks : List ℕ)
        → (S.put store key new).0 ≡ some w
        → yielded body ≡ []
        → All (λ k. 0 < k) ks
        → (served (new_reader body w cap) ks ≡ yielded (after (new_reader body w cap) ks).upstream)
          × All (Adds key new (whole body)) (calls (new_reader body w cap) ks)
    put-Adds store key new w body cap ks e start pos =
        let (empty, place) = laws.put-handle store key new w e in
        let (passed, all) = polls-new_reader body w cap ks pos start empty in
        (
          passed,
          All-Adds key new (whole body) _ all (
              calls-new_reader (λ x. target x ≡ (key, new)) (λ x buf h. aims x buf ∙ h) body w cap
                ks place),
        )
