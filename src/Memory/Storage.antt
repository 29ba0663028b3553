-- ===== src/Memory/Storage.antt =====
-- `InMemoryStorage` as an implementation of the traits.
use trillium_cache.Prelude.{
  arith, ◌∙◌, ◌≡◌, ◌⊎◌, inl, inr, refl, sym, ap, Bool, true, false, Option, none, some, [], ◌∷◌,
  length, map, keep, All, Any, Any-append, Bool-cases,
}
use mathlib.Core.Path.{subst}
use trillium_cache.Http.{Http}
use trillium_cache.Policy.{CachePolicy, same_variant_as}
use trillium_cache.Storage.{Urls, CacheKey, key_eq, key_eq_refl, key_eq-equal}
use trillium_cache.Storage.Traits.{CacheStorage, IsLawful, Payload}
use trillium_cache.Memory.Moka.{MokaCache, Kept, outcome}
use trillium_cache.Memory.{
  Variant, Bucket, InMemoryEntry, InMemoryPutHandle, insert_variant, replace_policy, refresh_bucket,
  open_entry, get_entries, put_handle, write, finalize, invalidate_key, refresh_policy,
}
use trillium_cache.Memory.Buckets.{variants}
use trillium_cache.Memory.Refresh.{payload}
use trillium_cache.Memory.Replay.{reads_whole}
use trillium_cache.Tee.Streams.{Streams as TeeStreams}
use trillium_cache.Bodies.{HttpBodies, Restores}

module _ ⦃http : Http⦄ where
  open http use {Headers}

  -- A variant with a policy and a payload.
  abbrev pub Matches : CachePolicy → Payload → Variant → Type 0
  Matches p d v = (v.policy ≡ p) × (payload v ≡ d)

  Any-keep : (f : Variant → Bool) (P : Variant → Type 0) (b : Bucket) → Any P (keep f b) → Any P b
  Any-keep f P (v ∷ b) h = elim (Bool-cases (f v)) [
    | inl e ↦ elim (rw (e, keep) at h) [ inl p ↦ inl p | inr q ↦ inr (Any-keep f P b q) ]
    | inr e ↦ inr (Any-keep f P b (rw (e, keep) at h))
  ]
  Any-keep f P [] h = h

  Any-insert :
      (v : Variant) (old : Option Bucket) (P : Variant → Type 0)
      → Any P (insert_variant v old)
      → Any P (variants old) ⊎ P v
  unfolding insert_variant
  Any-insert v none P h = Any-append P [] v h
  Any-insert v (some b) P h = elim (Any-append P (keep _ b) v h) [
    | inl q ↦ inl (Any-keep _ P b q)
    | inr q ↦ inr q
  ]

  -- What a refresh leaves: a variant that was there, or one that was the same, with the new policy.
  abbrev Refreshed : CachePolicy → CachePolicy → Payload → Bucket → Type 0
  Refreshed q p d b =
      Any (Matches p d) b
      ⊎ ((p ≡ q) × ((old : CachePolicy) × Any (Matches old d) b × (same_variant_as old q ≡ true)))

  later :
      (q p : CachePolicy) (d : Payload) (v : Variant) (b : Bucket)
      → Refreshed q p d b
      → Refreshed q p d (v ∷ b)
  later q p d v b (inl h) = inl (inr h)
  later q p d v b (inr (e, (old, held, same))) = inr (e, (old, inr held, same))

  replace_policy-Refreshed :
      (q p : CachePolicy) (d : Payload) (u : Bool) (b : Bucket)
      → Any (Matches p d) (replace_policy q u b).0
      → Refreshed q p d b
  unfolding replace_policy
  replace_policy-Refreshed q p d u [] h = inl h
  replace_policy-Refreshed q p d true (v ∷ b) (inl m) = inl (inl m)
  replace_policy-Refreshed q p d true (v ∷ b) (inr h) =
      later q p d v b (replace_policy-Refreshed q p d true b h)
  replace_policy-Refreshed q p d false (v ∷ b) h = elim (Bool-cases (same_variant_as v.policy q)) [
    | inl e ↦ elim (rw e at h) [
      | inl m ↦ inr (sym m.0, (v.policy, inl (refl, m.1), e))
      | inr r ↦ later q p d v b (replace_policy-Refreshed q p d true b r)
    ]
    | inr e ↦ elim (rw e at h) [
      | inl m ↦ inl (inl m)
      | inr r ↦ later q p d v b (replace_policy-Refreshed q p d false b r)
    ]
  ]

  outcome-Refreshed :
      (q p : CachePolicy) (d : Payload) (old : Option Bucket)
      → Any (Matches p d) (variants (outcome (refresh_bucket q old) old))
      → Refreshed q p d (variants old)
  unfolding refresh_bucket
  outcome-Refreshed q p d none h = inl h
  outcome-Refreshed q p d (some b) h = elim (Bool-cases (replace_policy q false b).1) [
    | inl e ↦ replace_policy-Refreshed q p d false b (rw e at h)
    | inr e ↦ inl (rw e at h)
  ]

module _ ⦃http : Http⦄ ⦃urls : Urls⦄ ⦃streams : TeeStreams⦄ ⦃bodies : HttpBodies⦄
    ⦃moka : MokaCache CacheKey Bucket key_eq⦄ where
  open http use {Headers}
  open streams use {Body}
  open bodies use {body_of_replay, yielded-replay, whole-replay, ends_with-replay}
  open moka use {Cache, content, content-upsert, content-compute, content-invalidate}

  -- `CacheStorage for InMemoryStorage`, `StoredEntry for InMemoryEntry` and
  -- `PutHandle for InMemoryPutHandle`
  abbrev pub memory_storage : CacheStorage Body InMemoryPutHandle
  memory_storage = record {
    Store = Cache;
    Entry = InMemoryEntry;
    get_entries = get_entries;
    put = λ c k p. (some (put_handle k p), c);
    invalidate = invalidate_key;
    policy = λ e. e.variant.policy;
    refresh_policy = λ c e p. (true, (refresh_policy c e p).0, (refresh_policy c e p).1);
    open_entry = λ c e. (some (body_of_replay (open_entry e) (some (length e.variant.body))), c);
    write_all = λ h bytes. some (write h bytes).0;
    finalize = λ c h t. (true, finalize c h t);
  }

  -- A variant with the policy and the payload is in the bucket of the key.
  abbrev pub MemoryHolds : Cache → CacheKey → CachePolicy → Payload → Type 0
  MemoryHolds c k p d = Any (Matches p d) (variants (content c k))

  abbrev pub handle_target : InMemoryPutHandle → CacheKey × CachePolicy
  handle_target h = (h.key, h.policy)

  Kept-Any :
      (now expected : Option Bucket) (P : Variant → Type 0)
      → Kept now expected
      → Any P (variants now)
      → Any P (variants expected)
  Kept-Any now expected P (inl e) h = rw e at h
  Kept-Any now expected P (inr e) h = elim (rw e at h) [ ]

  restores_stored :
      (e : InMemoryEntry)
      → Restores (body_of_replay (open_entry e) (some (length e.variant.body))) (payload e.variant)
  unfolding open_entry
  restores_stored e =
      let n = some (length e.variant.body) in
      let ks = length e.variant.body ∷ [] in
      let (bytes, ended, trailers) = reads_whole (open_entry e) refl in
      (
        yielded-replay (open_entry e) n,
        whole-replay (open_entry e) n ks 1 (omega arith) ended ∙ bytes,
        ends_with-replay (open_entry e) n ks 1 (omega arith) ended ∙ trailers,
      )

  opens_to :
      (c : Cache) (k : CacheKey) (full : Bucket) (b : Bucket)
      → ((P : Variant → Type 0) → Any P b → Any P full)
      → All
          (λ e.
            (body : Body)
            → (memory_storage.open_entry c e).0 ≡ some body
            → (d : Payload) × Any (Matches e.variant.policy d) full × Restores body d)
          (map (λ v. record { variant = v; key = k }) b)
  unfolding open_entry
  opens_to c k full [] sub = tt
  opens_to c k full (v ∷ b) sub = (
    λ body e. (
      payload v,
      sub (Matches v.policy (payload v)) (inl (refl, refl)),
      subst (λ b. Restores b (payload v)) (cc e)
          (restores_stored (record { variant = v; key = k })),
    ),
    opens_to c k full b (λ P h. sub P (inr h)),
  )

  opens_to_held :
      (c : Cache) (k : CacheKey) (o : Option Bucket)
      → content c k ≡ o
      → All
          (λ e.
            (body : Body)
            → (memory_storage.open_entry c e).0 ≡ some body
            → (d : Payload) × Any (Matches e.variant.policy d) (variants o) × Restores body d)
          (get_entries c k)
  unfolding get_entries
  opens_to_held c k none e = rw (e, get_entries) tt
  opens_to_held c k (some b) e = rw (e, get_entries) (opens_to c k b b (λ P h. h))

  finalize_holds :
      (c : Cache) (h : InMemoryPutHandle) (t : Option Headers) (k : CacheKey) (p : CachePolicy)
      (d : Payload)
      → MemoryHolds (finalize c h t) k p d
      → MemoryHolds c k p d ⊎ ((handle_target h ≡ (k, p)) × (d ≡ (h.buffer, t)))
  unfolding finalize
  finalize_holds c h t k p d held =
      let v : Variant = record { policy = h.policy; body = h.buffer; trailers = t } in
      let there = Kept-Any _ _ (Matches p d) (content-upsert c h.key k (insert_variant v)) held in
      elim (Bool-cases (key_eq h.key k)) [
        | inr e ↦ inl (rw e at there)
        | inl e ↦
            let same = key_eq-equal h.key k e in
            elim (Any-insert v (content c h.key) (Matches p d) (rw e at there)) [
              | inl old ↦ inl (subst (λ j. Any (Matches p d) (variants (content c j))) same old)
              | inr new ↦ inr (λ i. (same i, new.0 i), sym new.1)
            ]
      ]

  invalidate_holds :
      (c : Cache) (j k : CacheKey) (p : CachePolicy) (d : Payload)
      → MemoryHolds (invalidate_key c j) k p d
      → MemoryHolds c k p d × (key_eq j k ≡ false)
  unfolding invalidate_key
  invalidate_holds c j k p d held =
      let there = Kept-Any _ _ (Matches p d) (content-invalidate c j k) held in
      elim (Bool-cases (key_eq j k)) [
        | inl e ↦ elim (rw e at there) [ ]
        | inr e ↦ (rw e at there, e)
      ]

  empty_outcome :
      (c c' : Cache) (k : CacheKey)
      → Kept (content c' k) (content c k) ⊎ Kept (content c' k) none
      → get_entries c k ≡ []
      → get_entries c' k ≡ []
  unfolding get_entries
  empty_outcome c c' k (inl (inl e)) h = rw (e, get_entries) h
  empty_outcome c c' k (inl (inr e)) h = rw (e, get_entries) refl
  empty_outcome c c' k (inr (inl e)) h = rw (e, get_entries) refl
  empty_outcome c c' k (inr (inr e)) h = rw (e, get_entries) refl

  refresh_holds :
      (c : Cache) (e : InMemoryEntry) (q : CachePolicy) (k : CacheKey) (p : CachePolicy)
      (d : Payload)
      → MemoryHolds (refresh_policy c e q).1 k p d
      → MemoryHolds c k p d
        ⊎ ((p ≡ q) × ((old : CachePolicy) × MemoryHolds c k old d × (same_variant_as old q ≡ true)))
  unfolding refresh_policy
  refresh_holds c e q k p d held =
      let there = Kept-Any _ _ (Matches p d) (content-compute c e.key k (refresh_bucket q)) held in
      elim (Bool-cases (key_eq e.key k)) [
        | inr f ↦ inl (rw f at there)
        | inl f ↦
            let same = key_eq-equal e.key k f in
            subst (λ j. Refreshed q p d (variants (content c j))) same
              (outcome-Refreshed q p d (content c e.key) (rw f at there))
      ]

  clears : (c : Cache) (k : CacheKey) → get_entries (invalidate_key c k) k ≡ []
  unfolding get_entries invalidate_key
  clears c k = elim (content-invalidate c k k) [
    | inl e ↦ rw (rw (key_eq_refl k) at e, get_entries) refl
    | inr e ↦ rw (e, get_entries) refl
  ]

  keeps_empty :
      (c : Cache) (j k : CacheKey) → get_entries c k ≡ [] → get_entries (invalidate_key c j) k ≡ []
  unfolding invalidate_key
  keeps_empty c j k h = elim (Bool-cases (key_eq j k)) [
    | inl e ↦ empty_outcome c _ k (inr (rw e at (content-invalidate c j k))) h
    | inr e ↦ empty_outcome c _ k (inl (rw e at (content-invalidate c j k))) h
  ]

  -- The storage in memory keeps the laws of the traits, and a stored body opens with its trailers.
  pub memory_storage-IsLawful :
      IsLawful memory_storage MemoryHolds (λ h. h.buffer) handle_target Restores
  unfolding put_handle write
  memory_storage-IsLawful = record {
    open-get = λ c k. opens_to_held c k (content c k) refl;
    open-holds = λ c e k p d h. h;
    put-holds = λ c j k q p d h. h;
    put-handle = λ c k p h e.
        let same : put_handle k p ≡ h = cc e in
        (sym (ap (λ x. x.buffer) same), sym (ap handle_target same));
    write-handle = λ h h' bytes e.
        let same : (write h bytes).0 ≡ h' = cc e in
        (sym (ap (λ x. x.buffer) same), sym (ap handle_target same));
    finalize-holds = finalize_holds;
    invalidate-holds = invalidate_holds;
    invalidate-clears = clears;
    invalidate-keeps = keeps_empty;
    refresh-holds = refresh_holds;
  }
