-- ===== src/Memory/Promises.antt =====
-- What the documentation of the traits promises, of the storage in memory.
use trillium_cache.Prelude.{
  ◌≡◌, ◌⊎◌, ◌↔◌, inl, inr, refl, sym, ap, ◌∙◌, Bool, true, false, not, Option, none, some, List, [],
  ◌∷◌, ◌++◌, map, keep, Any, Any-append, Bool-cases,
}
use mathlib.Core.Path.{subst}
use trillium_cache.Http.{Http}
use trillium_cache.Policy.{CachePolicy, same_variant_as}
use trillium_cache.Storage.{Urls, CacheKey, key_eq, key_eq_refl}
use trillium_cache.Storage.Traits.{IsLawful, Payload}
use trillium_cache.Memory.Moka.{MokaCache, outcome}
use trillium_cache.Memory.{
  Variant, Bucket, InMemoryEntry, InMemoryPutHandle, insert_variant, refresh_bucket, finalize,
  refresh_policy,
}
use trillium_cache.Memory.Buckets.{variants, keep-yes, keep-no, insert_variant_lem}
use trillium_cache.Memory.Reach.{Reachable, Reachable-IsWellFormed}
use trillium_cache.Memory.Refresh.{refreshed, variants-refresh}
use trillium_cache.Memory.Storage.{
  Matches, MemoryHolds, memory_storage, handle_target, memory_storage-IsLawful,
}
use trillium_cache.Tee.Streams.{Streams as TeeStreams}
use trillium_cache.Bodies.{HttpBodies, Restores}

module _ {A : Type 0} (P : A → Type 0) where
  Any-first : (xs : List A) (x : A) → Any P xs → Any P (xs ++ x ∷ [])
  Any-first (y ∷ xs) x (inl p) = inl p
  Any-first (y ∷ xs) x (inr h) = inr (Any-first xs x h)
  Any-first [] x h = elim h [ ]

  Any-last : (xs : List A) (x : A) → P x → Any P (xs ++ x ∷ [])
  Any-last [] x h = inl h
  Any-last (y ∷ xs) x h = inr (Any-last xs x h)

module _ ⦃http : Http⦄ where
  module _ (q p : CachePolicy) (d : Payload) where
    same_of_Matches :
        (v : Variant) → Matches p d v → same_variant_as v.policy q ≡ same_variant_as p q
    same_of_Matches v m = ap (λ x. same_variant_as x q) m.0

    abbrev differs : Variant → Bool
    differs v = not (same_variant_as v.policy q)

    kept_others :
        (b : Bucket)
        → Any (Matches p d) (keep differs b)
        → Any (Matches p d) b × (same_variant_as p q ≡ false)
    kept_others [] h = elim h [ ]
    kept_others (v ∷ b) h = elim (Bool-cases (same_variant_as v.policy q)) [
      | inl e ↦
          let (there, s) = kept_others b (rw (keep-no differs v b (rw e refl)) at h) in
          (inr there, s)
      | inr e ↦ elim (rw (keep-yes differs v b (rw e refl)) at h) [
        | inl m ↦ (inl m, sym (same_of_Matches v m) ∙ e)
        | inr r ↦ let (there, s) = kept_others b r in (inr there, s)
      ]
    ]

    others_kept :
        (b : Bucket)
        → Any (Matches p d) b
        → same_variant_as p q ≡ false
        → Any (Matches p d) (keep differs b)
    others_kept [] h s = h
    others_kept (v ∷ b) (inl m) s =
        rw (keep-yes differs v b (rw (same_of_Matches v m ∙ s) refl)) (inl m)
    others_kept (v ∷ b) (inr h) s = elim (Bool-cases (same_variant_as v.policy q)) [
      | inl e ↦ rw (keep-no differs v b (rw e refl)) (others_kept b h s)
      | inr e ↦ rw (keep-yes differs v b (rw e refl)) (inr (others_kept b h s))
    ]

    -- What a refresh by the policy `q` makes of a bucket.
    abbrev pub IsRefreshed : Bucket → Type 0
    IsRefreshed b =
        (Any (Matches p d) b × (same_variant_as p q ≡ false))
        ⊎ ((p ≡ q) × ((old : CachePolicy) × Any (Matches old d) b × (same_variant_as old q ≡ true)))

    IsRefreshed-later : (v : Variant) (b : Bucket) → IsRefreshed b → IsRefreshed (v ∷ b)
    IsRefreshed-later v b (inl (h, s)) = inl (inr h, s)
    IsRefreshed-later v b (inr (e, (old, held, s))) = inr (e, (old, inr held, s))

    map-IsRefreshed : (b : Bucket) → Any (Matches p d) (map (refreshed q) b) → IsRefreshed b
    map-IsRefreshed [] h = elim h [ ]
    map-IsRefreshed (v ∷ b) (inl m) = elim (Bool-cases (same_variant_as v.policy q)) [
      | inl e ↦
          let (at_policy, bytes) = rw e at m in
          inr (sym at_policy, (v.policy, inl (refl, bytes), e))
      | inr e ↦ let m' : Matches p d v = rw e at m in inl (inl m', sym (same_of_Matches v m') ∙ e)
    ]
    map-IsRefreshed (v ∷ b) (inr h) = IsRefreshed-later v b (map-IsRefreshed b h)

  IsRefreshed-map :
      (q p : CachePolicy) (d : Payload) (b : Bucket)
      → IsRefreshed q p d b
      → Any (Matches p d) (map (refreshed q) b)
  IsRefreshed-map q p d [] (inl (h, s)) = h
  IsRefreshed-map q p d [] (inr (e, (old, h, s))) = h
  IsRefreshed-map q p d (v ∷ b) (inl (inl m, s)) = inl (rw (same_of_Matches q p d v m ∙ s) m)
  IsRefreshed-map q p d (v ∷ b) (inl (inr h, s)) = inr (IsRefreshed-map q p d b (inl (h, s)))
  IsRefreshed-map q p d (v ∷ b) (inr (e, (old, inl m, s))) =
      inl (rw (same_of_Matches q old d v m ∙ s) (sym e, m.1))
  IsRefreshed-map q p d (v ∷ b) (inr (e, (old, inr h, s))) =
      inr (IsRefreshed-map q p d b (inr (e, (old, h, s))))

module _ ⦃http : Http⦄ ⦃urls : Urls⦄ ⦃streams : TeeStreams⦄ ⦃bodies : HttpBodies⦄
    ⦃moka : MokaCache CacheKey Bucket key_eq⦄ where
  open moka use {Cache, content, content-upsert, content-compute}

  -- The map holds nothing under the key.
  abbrev pub IsDropped : Cache → CacheKey → Type 0
  IsDropped c k = content c k ≡ none

  -- Behind `finalize`: what was there for other variants, and the new response.
  abbrev pub FinalizeReplaces : Cache → InMemoryPutHandle → Option http.Headers → Type 0
  FinalizeReplaces c h t =
      (p : CachePolicy) (d : Payload)
      → MemoryHolds (finalize c h t) h.key p d ↔ (
          (MemoryHolds c h.key p d × (same_variant_as p h.policy ≡ false))
          ⊎ ((p ≡ h.policy) × (d ≡ (h.buffer, t))))

  -- Behind `refresh_policy`: what was there for other variants, and what was there for the variant of the
  -- new policy, which is its policy now.
  abbrev pub RefreshReplaces : Cache → InMemoryEntry → CachePolicy → Type 0
  RefreshReplaces c e q =
      (p : CachePolicy) (d : Payload)
      → MemoryHolds (refresh_policy c e q).1 e.key p d ↔ (
          (MemoryHolds c e.key p d × (same_variant_as p q ≡ false))
          ⊎ ((p ≡ q)
              × ((old : CachePolicy) × MemoryHolds c e.key old d × (same_variant_as old q ≡ true))))

  finalize-replaces :
      (c : Cache) (h : InMemoryPutHandle) (t : Option http.Headers)
      → IsDropped (finalize c h t) h.key ⊎ FinalizeReplaces c h t
  unfolding finalize
  finalize-replaces c h t =
      let v : Variant = record { policy = h.policy; body = h.buffer; trailers = t } in
      elim (content-upsert c h.key h.key (insert_variant v)) [
        | inr gone ↦ inl gone
        | inl kept ↦
            let at_key : content (finalize c h t) h.key
                ≡ some (insert_variant v (content c h.key)) =
              kept ∙ rw (key_eq_refl h.key) refl in
            let now : variants (content (finalize c h t) h.key)
                ≡ keep (λ w. not (same_variant_as w.policy h.policy)) (variants (content c h.key))
                  ++ v ∷ [] =
              ap variants at_key ∙ insert_variant_lem v (content c h.key) in
            inr (λ p d. (
              λ held. elim (Any-append (Matches p d) _ v (subst (Any (Matches p d)) now held)) [
                | inl old ↦ inl (kept_others h.policy p d (variants (content c h.key)) old)
                | inr m ↦ inr (sym m.0, sym m.1)
              ],
              λ h'. subst (Any (Matches p d)) (sym now) (elim h' [
                | inl (old, s) ↦
                    Any-first (Matches p d) _ v
                      (others_kept h.policy p d (variants (content c h.key)) old s)
                | inr (at_policy, bytes) ↦ Any-last (Matches p d) _ v (sym at_policy, sym bytes)
              ]),
            ))
      ]

  refresh-replaces :
      (c : Cache) (e : InMemoryEntry) (q : CachePolicy)
      → Reachable c
      → IsDropped (refresh_policy c e q).1 e.key ⊎ RefreshReplaces c e q
  unfolding refresh_policy
  refresh-replaces c e q r = elim (content-compute c e.key e.key (refresh_bucket q)) [
    | inr gone ↦ inl gone
    | inl kept ↦
        let at_key : content (refresh_policy c e q).1 e.key
            ≡ outcome (refresh_bucket q (content c e.key)) (content c e.key) =
          kept ∙ rw (key_eq_refl e.key) refl in
        let now : variants (content (refresh_policy c e q).1 e.key)
            ≡ map (refreshed q) (variants (content c e.key)) =
          ap variants at_key
          ∙ variants-refresh q (content c e.key) (Reachable-IsWellFormed c r e.key) in
        inr (λ p d. (
          λ held.
              map-IsRefreshed q p d (variants (content c e.key))
                (subst (Any (Matches p d)) now held),
          λ h.
              subst (Any (Matches p d)) (sym now)
                (IsRefreshed-map q p d (variants (content c e.key)) h),
        ))
  ]

  -- The storage in memory keeps the laws of the traits, and what `get` returns opens to the bytes that are
  -- held and to their trailers. Behind `finalize`, the map has dropped the key, or it holds under it exactly
  -- the new response and what it held for other variants. Behind `refresh_policy`, on a map that the
  -- operations have made, the map has dropped the key, or it holds exactly what it held for other variants
  -- and, with the new policy, the payloads that it held for the variant of that.
  pub memory_storage-Promises :
      (c : Cache) (h : InMemoryPutHandle) (t : Option http.Headers) (e : InMemoryEntry)
      (q : CachePolicy)
      → Reachable c
      → IsLawful memory_storage MemoryHolds (λ w. w.buffer) handle_target Restores
        × (IsDropped (finalize c h t) h.key ⊎ FinalizeReplaces c h t)
        × (IsDropped (refresh_policy c e q).1 e.key ⊎ RefreshReplaces c e q)
  memory_storage-Promises c h t e q r =
      (memory_storage-IsLawful, finalize-replaces c h t, refresh-replaces c e q r)
