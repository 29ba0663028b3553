-- ===== src/Memory/Replay.antt =====
-- Reading a stored body.
use trillium_cache.Prelude.{
  ℕ, zero, suc, ◌+◌, ◌-◌, ◌≤◌, ◌<◌, ◌≡◌, ◌⊎◌, inl, inr, refl, sym, ap, ◌∙◌, List, [], ◌∷◌, ◌++◌,
  arith, length, min,
}
use mathlib.Core.List.{append-nil}
use trillium_cache.Http.{Http}
use trillium_cache.Storage.{Urls, CacheKey, key_eq}
use trillium_cache.Memory.Moka.{MokaCache}
use trillium_cache.Memory.{
  Bucket, ReplayBodySource, InMemoryEntry, open_entry, read_replay, take_trailers, take, drop,
}

order_cases : (a b : ℕ) → (a ≤ b) ⊎ (b < a)
order_cases a b = ground arith

module _ {A : Type 0} where
  take-zero : (xs : List A) → take 0 xs ≡ []
  take-zero [] = refl
  take-zero (x ∷ xs) = refl

  drop-zero : (xs : List A) → drop 0 xs ≡ xs
  drop-zero [] = refl
  drop-zero (x ∷ xs) = refl

  take-append : (n m : ℕ) (xs : List A) → take n xs ++ take m (drop n xs) ≡ take (n + m) xs
  take-append n m [] = refl
  take-append zero m (x ∷ xs) = ap (λ k. take k (x ∷ xs)) (omega arith)
  take-append (suc n) m (x ∷ xs) =
      let e : suc n + m ≡ suc (n + m) = omega arith in rw e (ap (λ r. x ∷ r) (take-append n m xs))

  drop-drop : (p n : ℕ) (xs : List A) → drop n (drop p xs) ≡ drop (p + n) xs
  drop-drop p n [] = refl
  drop-drop zero n (x ∷ xs) = ap (λ k. drop k (x ∷ xs)) (omega arith)
  drop-drop (suc p) n (x ∷ xs) =
      let e : suc p + n ≡ suc (p + n) = omega arith in rw e (drop-drop p n xs)

  pub length-drop : (p : ℕ) (xs : List A) → length (drop p xs) ≡ length xs - p
  length-drop p [] = omega arith
  length-drop zero (x ∷ xs) = omega arith
  length-drop (suc p) (x ∷ xs) = omega (arith, length-drop p xs)

  pub drop-all : (n : ℕ) (xs : List A) → length xs ≤ n → drop n xs ≡ []
  drop-all n [] h = refl
  drop-all zero (x ∷ xs) h = absurd (omega (arith, h))
  drop-all (suc n) (x ∷ xs) h = drop-all n xs (omega (arith, h))

  take-all : (n : ℕ) (xs : List A) → length xs ≤ n → take n xs ≡ xs
  take-all n [] h = refl
  take-all zero (x ∷ xs) h = absurd (omega (arith, h))
  take-all (suc n) (x ∷ xs) h = ap (λ r. x ∷ r) (take-all n xs (omega (arith, h)))

  take-min : (k : ℕ) (xs : List A) → take (min (length xs) k) xs ≡ take k xs
  take-min k xs = elim (order_cases (length xs) k) [
    | inl h ↦
        let e : min (length xs) k ≡ length xs = omega (arith, h) in
        rw e (take-all (length xs) xs (omega arith) ∙ sym (take-all k xs h))
    | inr h ↦ ap (λ n. take n xs) (omega (arith, h))
  ]

  drop-min : (k : ℕ) (xs : List A) → drop (min (length xs) k) xs ≡ drop k xs
  drop-min k xs = elim (order_cases (length xs) k) [
    | inl h ↦
        let e : min (length xs) k ≡ length xs = omega (arith, h) in
        rw e (drop-all (length xs) xs (omega arith) ∙ sym (drop-all k xs h))
    | inr h ↦ ap (λ n. drop n xs) (omega (arith, h))
  ]

module _ ⦃http : Http⦄ where
  -- The bytes that are left.
  abbrev unread : ReplayBodySource → List ℕ
  unread source = drop source.position source.body

  read_replay_lem :
      (source : ReplayBodySource) (k : ℕ)
      → ((read_replay source k).0 ≡ take k (unread source))
        × (unread (read_replay source k).1 ≡ drop k (unread source))
  unfolding read_replay
  read_replay_lem source k =
      let left = length-drop source.position source.body in
      (
        rw (← left) (take-min k (unread source)),
        sym (drop-drop source.position _ source.body) ∙ rw (← left) (drop-min k (unread source)),
      )

  -- Reads into buffers of the given lengths, one after the other.
  abbrev pub reads : ReplayBodySource → List ℕ → List ℕ
  reads source [] = []
  reads source (k ∷ ks) = (read_replay source k).0 ++ reads (read_replay source k).1 ks

  abbrev pub sum : List ℕ → ℕ
  sum [] = 0
  sum (k ∷ ks) = k + sum ks

  reads_lem :
      (source : ReplayBodySource) (ks : List ℕ) → reads source ks ≡ take (sum ks) (unread source)
  reads_lem source [] = sym (take-zero (unread source))
  reads_lem source (k ∷ ks) =
      rw
        (
          (read_replay_lem source k).0,
          reads_lem (read_replay source k).1 ks,
          (read_replay_lem source k).1,
        )
        (take-append k (sum ks) (unread source))

  -- The reader behind these reads.
  abbrev pub read_on : ReplayBodySource → List ℕ → ReplayBodySource
  read_on source [] = source
  read_on source (k ∷ ks) = read_on (read_replay source k).1 ks

  -- A read of the whole body, from its start, leaves nothing and does not touch the trailers.
  pub reads_whole :
      (source : ReplayBodySource)
      → source.position ≡ 0
      → (reads source (length source.body ∷ []) ≡ source.body)
        × ((read_replay (read_on source (length source.body ∷ [])) 1).0 ≡ [])
        × ((take_trailers (read_replay (read_on source (length source.body ∷ [])) 1).1).0
            ≡ source.trailers)
  unfolding take_trailers read_replay
  reads_whole source e =
      let n = length source.body in
      let fresh : unread source ≡ source.body = rw e (drop-zero source.body) in
      (
        append-nil (read_replay source n).0
            ∙ (read_replay_lem source n).0
            ∙ ap (take n) fresh
            ∙ take-all n source.body (omega arith),
        (read_replay_lem (read_replay source n).1 1).0
            ∙ ap (take 1) (
                (read_replay_lem source n).1
                ∙ ap (drop n) fresh
                ∙ drop-all n source.body (omega arith)),
        refl,
      )

  unread-read_on :
      (source : ReplayBodySource) (ks : List ℕ)
      → unread (read_on source ks) ≡ drop (sum ks) (unread source)
  unread-read_on source [] = sym (drop-zero (unread source))
  unread-read_on source (k ∷ ks) =
      unread-read_on (read_replay source k).1 ks
      ∙ ap (drop (sum ks)) (read_replay_lem source k).1
      ∙ drop-drop k (sum ks) (unread source)

  take-past :
      {A : Type 0} (n k : ℕ) (xs : List A) → 0 < k → take k (drop n xs) ≡ [] → take n xs ≡ xs
  take-past n k [] pos e = refl
  take-past zero zero (x ∷ xs) pos e = absurd (omega (arith, pos))
  take-past zero (suc k) (x ∷ xs) pos e = absurd (cc e)
  take-past (suc n) k (x ∷ xs) pos e = ap (λ r. x ∷ r) (take-past n k xs pos e)

  -- Reads up to the end give the same bytes as one read of the whole body.
  pub reads_unique :
      (source : ReplayBodySource) (ks : List ℕ) (k : ℕ)
      → 0 < k
      → (read_replay (read_on source ks) k).0 ≡ []
      → reads source (length source.body ∷ []) ≡ reads source ks
  reads_unique source ks k pos e =
      let left : length (unread source) ≤ length source.body =
        omega (arith, length-drop source.position source.body) in
      append-nil (read_replay source (length source.body)).0
      ∙ (read_replay_lem source (length source.body)).0
      ∙ take-all (length source.body) (unread source) left
      ∙ sym (
          take-past (sum ks) k (unread source) pos (
            ap (take k) (sym (unread-read_on source ks))
            ∙ sym (read_replay_lem (read_on source ks) k).0
            ∙ e))
      ∙ sym (reads_lem source ks)

  pub trailers-read_on :
      (source : ReplayBodySource) (ks : List ℕ) (k : ℕ)
      → (take_trailers (read_replay (read_on source ks) k).1).0 ≡ (take_trailers source).0
  unfolding take_trailers read_replay
  trailers-read_on source [] k = refl
  trailers-read_on source (j ∷ ks) k = trailers-read_on (read_replay source j).1 ks k

module _ ⦃http : Http⦄ ⦃urls : Urls⦄ ⦃moka : MokaCache CacheKey Bucket key_eq⦄ where
  -- Whatever the lengths of the buffers are, reading a stored body from its start gives its first bytes
  -- in order, as many as the buffers hold; these are the whole body once they hold that many.
  pub reads-open_entry :
      (entry : InMemoryEntry) (ks : List ℕ)
      → (reads (open_entry entry) ks ≡ take (sum ks) entry.variant.body)
        × ((sum ks < length entry.variant.body)
            ⊎ (reads (open_entry entry) ks ≡ entry.variant.body))
  unfolding open_entry
  reads-open_entry entry ks =
      let body = entry.variant.body in
      let read = reads_lem (open_entry entry) ks ∙ ap (take (sum ks)) (drop-zero body) in
      (
        read,
        elim (order_cases (length body) (sum ks)) [
          | inl h ↦ inr (read ∙ take-all (sum ks) body h)
          | inr h ↦ inl h
        ],
      )
