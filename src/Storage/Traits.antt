-- ===== src/Storage/Traits.antt =====
-- The traits of src/storage.rs: `CacheStorage`, `StoredEntry` and `PutHandle`, over bodies and handles.
use trillium_cache.Prelude.{ℕ, ◌≡◌, ◌⊎◌, Bool, true, false, Option, some, List, [], ◌∷◌, ◌++◌, All}
use trillium_cache.Http.{Http}
use trillium_cache.Policy.{CachePolicy, same_variant_as}
use trillium_cache.Storage.{Urls, CacheKey, key_eq}

-- The operations, on a state that stands for all that a storage shares. `none` and `false` are errors.
pub record CacheStorage ⦃http : Http⦄ ⦃urls : Urls⦄ (Body Handle : Type 0) : Type 1 where
  pub Store : Type 0
  -- `StoredEntry`
  pub Entry : Type 0
  pub get_entries : Store → CacheKey → List Entry
  pub put : Store → CacheKey → CachePolicy → Option Handle × Store
  pub invalidate : Store → CacheKey → Store
  pub policy : Entry → CachePolicy
  pub refresh_policy : Store → Entry → CachePolicy → Bool × Entry × Store
  pub open_entry : Store → Entry → Option Body × Store
  -- `write_all` of `AsyncWriteExt` on a `PutHandle`, and `PutHandle::finalize`
  pub write_all : Handle → List ℕ → Option Handle
  pub finalize : Store → Handle → Option http.Headers → Bool × Store

-- What is stored: the bytes of a body and its trailers.
module _ ⦃http : Http⦄ where
  abbrev pub Payload : Type 0
  Payload = List ℕ × Option http.Headers

-- What the documentation of the traits rules out: what a storage never holds or shows, since it may drop
-- anything at any time. `Holds s k p d` says that the storage holds a response
-- with the policy and the payload under the key; `accepted` and `target` are what a handle has been given
-- and what it was opened for; `Gives b d` says that a body replays a payload.
pub record IsLawful ⦃http : Http⦄ ⦃urls : Urls⦄ {Body Handle : Type 0}
    (S : CacheStorage Body Handle) (Holds : S.Store → CacheKey → CachePolicy → Payload → Type 0)
    (accepted : Handle → List ℕ) (target : Handle → CacheKey × CachePolicy)
    (Gives : Body → Payload → Type 0) : Type 0 where
  -- an entry that `get` returns opens to what is held under the key with its policy
  pub open-get :
      (s : S.Store) (k : CacheKey)
      → All
          (λ e.
            (b : Body)
            → (S.open_entry s e).0 ≡ some b
            → (d : Payload) × Holds s k (S.policy e) d × Gives b d)
          (S.get_entries s k)
  -- neither `open` nor `put` exposes anything; a new handle has accepted nothing
  pub open-holds :
      (s : S.Store) (e : S.Entry) (k : CacheKey) (p : CachePolicy) (d : Payload)
      → Holds (S.open_entry s e).1 k p d
      → Holds s k p d
  pub put-holds :
      (s : S.Store) (j k : CacheKey) (q p : CachePolicy) (d : Payload)
      → Holds (S.put s j q).1 k p d
      → Holds s k p d
  pub put-handle :
      (s : S.Store) (k : CacheKey) (p : CachePolicy) (h : Handle)
      → (S.put s k p).0 ≡ some h
      → (accepted h ≡ []) × (target h ≡ (k, p))
  pub write-handle :
      (h h' : Handle) (bytes : List ℕ)
      → S.write_all h bytes ≡ some h'
      → (accepted h' ≡ accepted h ++ bytes) × (target h' ≡ target h)
  -- `finalize` adds what the handle has accepted and nothing else
  pub finalize-holds :
      (s : S.Store) (h : Handle) (t : Option http.Headers) (k : CacheKey) (p : CachePolicy)
      (d : Payload)
      → Holds (S.finalize s h t).1 k p d
      → Holds s k p d ⊎ ((target h ≡ (k, p)) × (d ≡ (accepted h, t)))
  -- `invalidate` removes what is held under the key and adds nothing
  pub invalidate-holds :
      (s : S.Store) (j k : CacheKey) (p : CachePolicy) (d : Payload)
      → Holds (S.invalidate s j) k p d
      → Holds s k p d × (key_eq j k ≡ false)
  pub invalidate-clears : (s : S.Store) (k : CacheKey) → S.get_entries (S.invalidate s k) k ≡ []
  pub invalidate-keeps :
      (s : S.Store) (j k : CacheKey)
      → S.get_entries s k ≡ []
      → S.get_entries (S.invalidate s j) k ≡ []
  -- `refresh_policy` gives the new policy to what is the same variant and keeps the payload
  pub refresh-holds :
      (s : S.Store) (e : S.Entry) (q : CachePolicy) (k : CacheKey) (p : CachePolicy) (d : Payload)
      → Holds (S.refresh_policy s e q).2 k p d
      → Holds s k p d
        ⊎ ((p ≡ q) × ((old : CachePolicy) × Holds s k old d × (same_variant_as old q ≡ true)))

All-mono :
    {A : Type 0} {P Q : A → Type 0} (xs : List A) → ((x : A) → P x → Q x) → All P xs → All Q xs
All-mono [] f h = tt
All-mono (x ∷ xs) f h = (f x h.0, All-mono xs f h.1)

-- What gives more keeps the promises with what gives less.
module _ ⦃http : Http⦄ ⦃urls : Urls⦄ {Body Handle : Type 0} {S : CacheStorage Body Handle}
    {Holds : S.Store → CacheKey → CachePolicy → Payload → Type 0} {accepted : Handle → List ℕ}
    {target : Handle → CacheKey × CachePolicy} {More Less : Body → Payload → Type 0} where
  pub weaken-IsLawful :
      ((b : Body) (d : Payload) → More b d → Less b d)
      → IsLawful S Holds accepted target More
      → IsLawful S Holds accepted target Less
  weaken-IsLawful f laws = record {
    open-get = λ s k.
        All-mono (S.get_entries s k)
          (λ e h b opened. let (d, held, gives) = h b opened in (d, held, f b d gives))
          (laws.open-get s k);
    open-holds = laws.open-holds;
    put-holds = laws.put-holds;
    put-handle = laws.put-handle;
    write-handle = laws.write-handle;
    finalize-holds = laws.finalize-holds;
    invalidate-holds = laws.invalidate-holds;
    invalidate-clears = laws.invalidate-clears;
    invalidate-keeps = laws.invalidate-keeps;
    refresh-holds = laws.refresh-holds;
  }
