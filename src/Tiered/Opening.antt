-- ===== src/Tiered/Opening.antt =====
-- What the entries of a tiered storage open to.
use trillium_cache.Prelude.{
  ℕ, ◌-◌, ◌≡◌, ◌⊎◌, inl, inr, ◌∙◌, Option, none, some, List, [], ◌∷◌, map, All, Option-cases,
}
use mathlib.Core.Path.{subst}
use trillium_cache.Text.{u64_mod}
use trillium_cache.Http.{Http}
use trillium_cache.Policy.{CachePolicy}
use trillium_cache.Storage.{Urls, CacheKey}
use trillium_cache.Storage.Traits.{CacheStorage, IsLawful, Payload}
use trillium_cache.Tee.Streams.{Streams as TeeStreams}
use trillium_cache.Tee.{new_reader}
use trillium_cache.Tee.Ends.{new_reader-PassesOn, new_reader-EndsWith}
use trillium_cache.Bodies.{HttpBodies, Replays}
use trillium_cache.Tiered.{
  TieredStore, TieredEntry, in_hot, in_cold, TieredPutHandle, hot_first, tiered_policy, promote,
  open_tiered,
}

module _ ⦃http : Http⦄ ⦃urls : Urls⦄ ⦃streams : TeeStreams⦄ ⦃bodies : HttpBodies⦄
    {ColdHandle : Type 0} {hot : CacheStorage streams.Body streams.Writer}
    {cold : CacheStorage streams.Body ColdHandle}
    {HotHolds : hot.Store → CacheKey → CachePolicy → Payload → Type 0}
    {ColdHolds : cold.Store → CacheKey → CachePolicy → Payload → Type 0}
    {hot_accepted : streams.Writer → List ℕ} {cold_accepted : ColdHandle → List ℕ}
    {hot_target : streams.Writer → CacheKey × CachePolicy}
    {cold_target : ColdHandle → CacheKey × CachePolicy}
    (hots : IsLawful hot HotHolds hot_accepted hot_target Replays)
    (colds : IsLawful cold ColdHolds cold_accepted cold_target Replays) where
  open streams use {Body, whole, yielded}
  open bodies use {
    body_len, body_of_tee, ends_with, ends_with-read, trailers-end, yielded-tee, whole-tee,
    ends_with-tee,
  }

  -- One of the tiers holds the response.
  abbrev pub TieredHolds : TieredStore hot cold → CacheKey → CachePolicy → Payload → Type 0
  TieredHolds store k p d = HotHolds store.hot_store k p d ⊎ ColdHolds store.cold_store k p d

  abbrev pub tiered_accepted : TieredPutHandle hot cold → List ℕ
  tiered_accepted handle = hot_accepted handle.hot_handle

  abbrev pub tiered_target : TieredPutHandle hot cold → CacheKey × CachePolicy
  tiered_target handle = hot_target handle.hot_handle

  -- An entry of a tier opens to what that tier holds.
  abbrev pub Opens : TieredStore hot cold → CacheKey → TieredEntry hot cold → Type 0
  Opens store k e =
      (b : Body)
      → (open_tiered hot cold store e).0 ≡ some b
      → (d : Payload) × TieredHolds store k (tiered_policy hot cold e) d × Replays b d

  either_none :
      (x y : Option http.Headers) (t : Option http.Headers)
      → (y ≡ x) ⊎ (y ≡ none)
      → (x ≡ t) ⊎ (x ≡ none)
      → (y ≡ t) ⊎ (y ≡ none)
  either_none x y t (inl e) (inl f) = inl (e ∙ f)
  either_none x y t (inl e) (inr f) = inr (e ∙ f)
  either_none x y t (inr e) h = inr e

  -- a body that is read through a new tee has the bytes of its upstream
  teed_whole :
      (b : Body) (w : streams.Writer) (cap : ℕ) (n : Option ℕ)
      → yielded b ≡ []
      → whole (body_of_tee (new_reader b w cap) n) ≡ whole b
  unfolding new_reader
  teed_whole b w cap n start =
      whole-tee (new_reader b w cap) n start
        (new_reader-PassesOn ends_with ends_with-read trailers-end b w cap)

  promote-Replays :
      (store : TieredStore hot cold) (k : CacheKey) (p : CachePolicy) (b out : Body) (d : Payload)
      → (promote hot cold store k p b).0 ≡ some out
      → Replays b d
      → Replays out d
  unfolding promote
  promote-Replays store k p b out d e (start, bytes, trailers) =
      elim (Option-cases (hot.put store.hot_store k p).0) [
        | inl f ↦
            let same : b ≡ out = cc (rw (f, promote) at e) in
            subst (λ x. Replays x d) same (start, bytes, trailers)
        | inr (w, f) ↦
            let same : body_of_tee (new_reader b w (u64_mod - 1)) (body_len b) ≡ out =
              cc (rw (f, promote) at e) in
            subst (λ x. Replays x d) same
              (
                yielded-tee (new_reader b w (u64_mod - 1)) (body_len b),
                teed_whole b w (u64_mod - 1) (body_len b) start ∙ bytes,
                either_none (ends_with b) _ d.1
                    (ends_with-tee (new_reader b w (u64_mod - 1)) (body_len b) (ends_with b)
                      (new_reader-EndsWith ends_with ends_with-read trailers-end b w (u64_mod - 1)))
                    trailers,
              )
      ]

  hot-Opens :
      (store : TieredStore hot cold) (k : CacheKey) (e : hot.Entry)
      → ((b : Body)
          → (hot.open_entry store.hot_store e).0 ≡ some b
          → (d : Payload) × HotHolds store.hot_store k (hot.policy e) d × Replays b d)
      → Opens store k (in_hot e)
  unfolding open_tiered tiered_policy
  hot-Opens store k e h b f = let (d, held, gives) = h b f in (d, inl held, gives)

  cold-Opens :
      (store : TieredStore hot cold) (k : CacheKey) (e : cold.Entry)
      → ((b : Body)
          → (cold.open_entry store.cold_store e).0 ≡ some b
          → (d : Payload) × ColdHolds store.cold_store k (cold.policy e) d × Replays b d)
      → Opens store k (in_cold e k)
  unfolding open_tiered tiered_policy
  cold-Opens store k e h b f = elim (Option-cases (cold.open_entry store.cold_store e).0) [
    | inl g ↦ absurd (cc (rw (g, open_tiered) at f))
    | inr (cold_body, g) ↦
        let (d, held, gives) = h cold_body g in
        (
          d,
          inr held,
          promote-Replays _ k (cold.policy e) cold_body b d (rw (g, open_tiered) at f) gives,
        )
  ]

  All-map :
      {E F : Type 0} (f : E → F) (P : E → Type 0) (Q : F → Type 0) (es : List E)
      → ((e : E) → P e → Q (f e))
      → All P es
      → All Q (map f es)
  All-map f P Q [] g h = tt
  All-map f P Q (e ∷ es) g h = (g e h.0, All-map f P Q es g h.1)

  pub hot_first-Opens :
      (store : TieredStore hot cold) (k : CacheKey) (hs : List hot.Entry) (cs : List cold.Entry)
      → All
          (λ e.
            (b : Body)
            → (hot.open_entry store.hot_store e).0 ≡ some b
            → (d : Payload) × HotHolds store.hot_store k (hot.policy e) d × Replays b d)
          hs
      → All
          (λ e.
            (b : Body)
            → (cold.open_entry store.cold_store e).0 ≡ some b
            → (d : Payload) × ColdHolds store.cold_store k (cold.policy e) d × Replays b d)
          cs
      → All (Opens store k) (hot_first hot cold k hs cs)
  hot_first-Opens store k [] cs h c =
      All-map (λ e. in_cold e k) _ (Opens store k) cs (cold-Opens store k) c
  hot_first-Opens store k (e ∷ hs) cs h c =
      All-map in_hot _ (Opens store k) (e ∷ hs) (hot-Opens store k) h

  open-promote :
      (store : TieredStore hot cold) (k j : CacheKey) (p q : CachePolicy) (b : Body) (d : Payload)
      → TieredHolds (promote hot cold store k p b).1 j q d
      → TieredHolds store j q d
  unfolding promote
  open-promote store k j p q b d h = elim (Option-cases (hot.put store.hot_store k p).0) [
    | inl f ↦ elim (rw (f, promote) at h) [
      | inl x ↦ inl (hots.put-holds store.hot_store k j p q d x)
      | inr y ↦ inr y
    ]
    | inr (w, f) ↦ elim (rw (f, promote) at h) [
      | inl x ↦ inl (hots.put-holds store.hot_store k j p q d x)
      | inr y ↦ inr y
    ]
  ]

  pub open_holds :
      (store : TieredStore hot cold) (e : TieredEntry hot cold) (k : CacheKey) (p : CachePolicy)
      (d : Payload)
      → TieredHolds (open_tiered hot cold store e).1 k p d
      → TieredHolds store k p d
  unfolding open_tiered
  open_holds store (in_hot e) k p d (inl h) = inl (hots.open-holds store.hot_store e k p d h)
  open_holds store (in_hot e) k p d (inr h) = inr h
  open_holds store (in_cold e key) k p d h =
      let cold_store = (cold.open_entry store.cold_store e).1 in
      let back : TieredHolds (record store { cold_store = cold_store }) k p d
          → TieredHolds store k p d =
        λ x. elim x [ inl y ↦ inl y | inr y ↦ inr (colds.open-holds store.cold_store e k p d y) ] in
      elim (Option-cases (cold.open_entry store.cold_store e).0) [
        | inl f ↦ back (rw (f, open_tiered) at h)
        | inr (b, f) ↦ back (
            open-promote (record store { cold_store = cold_store }) key k (cold.policy e) p b d
              (rw (f, open_tiered) at h))
      ]
