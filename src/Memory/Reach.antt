-- ===== src/Memory/Reach.antt =====
-- The map of the storage, through any sequence of its operations and evictions.
use trillium_cache.Prelude.{
  ℕ, ◌≡◌, ◌⊎◌, inl, inr, refl, sym, ◌∙◌, Bool, true, false, Option, none, some, List, [], ◌∷◌, ◌++◌,
  if◌then◌else◌,
}
use mathlib.Core.List.{append-nil, append_assoc}
use trillium_cache.Time.{Duration}
use trillium_cache.Http.{Http}
use trillium_cache.Policy.{CachePolicy}
use trillium_cache.Storage.{Urls, CacheKey, key_eq, key_eq_refl}
use trillium_cache.Memory.Moka.{MokaCache, Kept}
use trillium_cache.Memory.{
  Variant, Bucket, InMemoryEntry, InMemoryPutHandle, finalize, refresh_policy, invalidate_key,
  insert_variant, weigh_bucket, write, put_handle,
}
use trillium_cache.Memory.Buckets.{
  IsBucket, variants, select, same_variant_as_iff, insert_variant-IsBucket,
}
use trillium_cache.Memory.Refresh.{refresh_bucket_lem}

module _ ⦃http : Http⦄ ⦃urls : Urls⦄ ⦃moka : MokaCache CacheKey Bucket key_eq⦄ where
  open http use {Headers}
  open moka use {
    Cache, build, content, upsert, compute, invalidate, content-build, content-upsert,
    content-compute, content-invalidate,
  }

  -- One operation on the map, or a drop of entries by the map itself.
  pub data Step : Cache → Cache → Type 0 where
    finalized :
        (c : Cache) (handle : InMemoryPutHandle) (trailers : Option Headers)
        → Step c (finalize c handle trailers)
    policy_refreshed :
        (c : Cache) (entry : InMemoryEntry) (p : CachePolicy) → Step c (refresh_policy c entry p).1
    invalidated : (c : Cache) (key : CacheKey) → Step c (invalidate_key c key)
    evicted :
        (c c' : Cache) → ((key : CacheKey) → Kept (content c' key) (content c key)) → Step c c'

  pub data Reachable : Cache → Type 0 where
    built :
        (capacity : Option ℕ) (idle live : Option Duration)
        → Reachable (build weigh_bucket capacity idle live)
    stepped : (c c' : Cache) → Reachable c → Step c c' → Reachable c'

  -- Each key holds a bucket.
  abbrev pub IsWellFormed : Cache → Type 0
  IsWellFormed c = (key : CacheKey) → IsBucket (variants (content c key))

  Kept-IsBucket :
      (now expected : Option Bucket)
      → Kept now expected
      → IsBucket (variants expected)
      → IsBucket (variants now)
  Kept-IsBucket now expected (inl e) h = rw e h
  Kept-IsBucket now expected (inr e) h = rw e tt

  chosen :
      (b : Bool) (x y : Option Bucket)
      → IsBucket (variants x)
      → IsBucket (variants y)
      → IsBucket (variants (if b then x else y))
  chosen true x y h k = h
  chosen false x y h k = k

  Step-IsWellFormed : (c c' : Cache) → Step c c' → IsWellFormed c → IsWellFormed c'
  unfolding finalize refresh_policy invalidate_key
  Step-IsWellFormed _ _ (finalized c handle trailers) h key =
      Kept-IsBucket _ _ (content-upsert c handle.key key _) (
        chosen (key_eq handle.key key) _ _
          (insert_variant-IsBucket _ (content c handle.key) handle.policy (h handle.key)).0 (h key))
  Step-IsWellFormed _ _ (policy_refreshed c entry p) h key =
      Kept-IsBucket _ _ (content-compute c entry.key key _) (
        chosen (key_eq entry.key key) _ _
          (refresh_bucket_lem p (content c entry.key) p (h entry.key)).0 (h key))
  Step-IsWellFormed _ _ (invalidated c k) h key =
      Kept-IsBucket _ _ (content-invalidate c k key) (chosen (key_eq k key) none _ tt (h key))
  Step-IsWellFormed _ _ (evicted c c' kept) h key = Kept-IsBucket _ _ (kept key) (h key)

  -- Whatever operations and evictions have run, no key holds two variants that are the same.
  pub Reachable-IsWellFormed : (c : Cache) → Reachable c → IsWellFormed c
  Reachable-IsWellFormed _ (built capacity idle live) =
      λ key. rw (content-build weigh_bucket capacity idle live key) tt
  Reachable-IsWellFormed _ (stepped c c' r s) =
      Step-IsWellFormed c c' s (Reachable-IsWellFormed c r)

  -- The handle after the chunks of a body have been written to it.
  abbrev pub write_all : InMemoryPutHandle → List (List ℕ) → InMemoryPutHandle
  write_all handle [] = handle
  write_all handle (chunk ∷ chunks) = write_all (write handle chunk).0 chunks

  abbrev pub concat : List (List ℕ) → List ℕ
  concat [] = []
  concat (chunk ∷ chunks) = chunk ++ concat chunks

  write_all_lem :
      (handle : InMemoryPutHandle) (chunks : List (List ℕ))
      → write_all handle chunks ≡ record handle { buffer = handle.buffer ++ concat chunks }
  unfolding write
  write_all_lem handle [] = λ i. record handle { buffer = sym (append-nil handle.buffer) i }
  write_all_lem handle (chunk ∷ chunks) = write_all_lem (write handle chunk).0 chunks ∙ λ i.
      record handle { buffer = append_assoc handle.buffer chunk (concat chunks) i }

  -- After a body has been written in chunks and finalized, its key is empty, if the map has dropped it,
  -- or holds exactly one variant that the policy selects, with that policy, all bytes of the chunks in
  -- their order and the trailers.
  pub finalize-write_all :
      (c : Cache) (key : CacheKey) (p : CachePolicy) (chunks : List (List ℕ)) (t : Option Headers)
      → Reachable c
      → (content (finalize c (write_all (put_handle key p) chunks) t) key ≡ none)
        ⊎ ((b : Bucket) × (content (finalize c (write_all (put_handle key p) chunks) t) key
              ≡ some b)
            × (select p b ≡ record { policy = p; body = concat chunks; trailers = t } ∷ []))
  unfolding finalize put_handle
  finalize-write_all c key p chunks t r =
      let v : Variant = record { policy = p; body = concat chunks; trailers = t } in
      rw (write_all_lem (put_handle key p) chunks)
        (elim (content-upsert c key key (insert_variant v)) [
          | inr gone ↦ inl gone
          | inl kept ↦ inr (
            insert_variant v (content c key),
            kept ∙ rw (key_eq_refl key) refl,
            (insert_variant-IsBucket v (content c key) p (Reachable-IsWellFormed c r key)).1
                ∙ rw ((same_variant_as_iff p p).1 refl) refl,
          )
        ])
