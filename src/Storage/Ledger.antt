-- ===== src/Storage/Ledger.antt =====
-- Any sequence of operations on a storage that keeps the promises of the traits, beside a ledger of what
-- has been written and not invalidated.
use trillium_cache.Prelude.{
  ℕ, ◌≡◌, inl, inr, refl, sym, ap, ◌∙◌, Bool, true, not, Option, some, List, [], ◌∷◌, keep, All,
  Any, Bool-cases,
}
use mathlib.Core.Path.{subst}
use trillium_cache.Http.{Http}
use trillium_cache.Policy.{CachePolicy, same_variant_as}
use trillium_cache.Storage.{Urls, CacheKey, key_eq}
use trillium_cache.Storage.Traits.{CacheStorage, IsLawful, Payload}
use trillium_cache.Memory.Buckets.{keep-yes, keep-no, same_variant_as-subst, same_variant_as_iff}

module _ {A : Type 0} (f : A → Bool) where
  -- What passes the test is still there.
  Any-keep :
      (P : A → Type 0) (xs : List A) → ((x : A) → P x → f x ≡ true) → Any P xs → Any P (keep f xs)
  Any-keep P [] g h = h
  Any-keep P (x ∷ xs) g (inl p) = rw (keep-yes f x xs (g x p)) (inl p)
  Any-keep P (x ∷ xs) g (inr h) = elim (Bool-cases (f x)) [
    | inl e ↦ rw (keep-yes f x xs e) (inr (Any-keep P xs g h))
    | inr e ↦ rw (keep-no f x xs e) (Any-keep P xs g h)
  ]

module _ ⦃http : Http⦄ ⦃urls : Urls⦄ where
  -- A response that has been written to the end.
  pub record Written : Type 0 where
    pub key : CacheKey
    pub policy : CachePolicy
    pub payload : Payload

  -- The responses under other keys.
  abbrev pub without : CacheKey → List Written → List Written
  without key ledger = keep (λ w. not (key_eq key w.key)) ledger

  -- What a response in the storage goes back to: a write under its key, of its payload, for its variant.
  abbrev pub Justifies : CacheKey → CachePolicy → Payload → Written → Type 0
  Justifies k p d w = (w.key ≡ k) × (w.payload ≡ d) × (same_variant_as w.policy p ≡ true)

  module _ {Body Handle : Type 0} {S : CacheStorage Body Handle}
      {Holds : S.Store → CacheKey → CachePolicy → Payload → Type 0} {accepted : Handle → List ℕ}
      {target : Handle → CacheKey × CachePolicy} {Gives : Body → Payload → Type 0}
      (laws : IsLawful S Holds accepted target Gives) where
    -- The operations, from a storage that holds nothing. What a finalized handle has accepted goes into
    -- the ledger; an invalidation takes out what is under its key.
    pub data Reaches : S.Store → List Written → Type 0 where
      begins :
          (s : S.Store)
          → ((k : CacheKey) (p : CachePolicy) (d : Payload) → Holds s k p d → ⊥)
          → Reaches s []
      opens :
          (s : S.Store) (ledger : List Written) (e : S.Entry)
          → Reaches s ledger
          → Reaches (S.open_entry s e).1 ledger
      puts :
          (s : S.Store) (ledger : List Written) (k : CacheKey) (p : CachePolicy)
          → Reaches s ledger
          → Reaches (S.put s k p).1 ledger
      finalizes :
          (s : S.Store) (ledger : List Written) (h : Handle) (t : Option http.Headers)
          → Reaches s ledger
          → Reaches (S.finalize s h t).1 (
              record { key = (target h).0; policy = (target h).1; payload = (accepted h, t) }
              ∷ ledger)
      invalidates :
          (s : S.Store) (ledger : List Written) (k : CacheKey)
          → Reaches s ledger
          → Reaches (S.invalidate s k) (without k ledger)
      refreshes :
          (s : S.Store) (ledger : List Written) (e : S.Entry) (q : CachePolicy)
          → Reaches s ledger
          → Reaches (S.refresh_policy s e q).2 ledger

    other_variant :
        (k : CacheKey) (old p : CachePolicy) (d : Payload) (ledger : List Written)
        → same_variant_as old p ≡ true
        → Any (Justifies k old d) ledger
        → Any (Justifies k p d) ledger
    other_variant k old p d [] e h = h
    other_variant k old p d (w ∷ ledger) e (inl (at_key, same, variant)) =
        inl (at_key, same, same_variant_as-subst w.policy old p variant ∙ e)
    other_variant k old p d (w ∷ ledger) e (inr h) = inr (other_variant k old p d ledger e h)

    same_self : (p : CachePolicy) → same_variant_as p p ≡ true
    same_self p = (same_variant_as_iff p p).1 refl

    -- Whatever operations have run, all that the storage holds is in the ledger, for its variant.
    justified :
        (s : S.Store) (ledger : List Written)
        → Reaches s ledger
        → (k : CacheKey) (p : CachePolicy) (d : Payload) → Holds s k p d
        → Any (Justifies k p d) ledger
    justified _ _ (begins s empty) k p d h = absurd (empty k p d h)
    justified _ _ (opens s ledger e r) k p d h =
        justified s ledger r k p d (laws.open-holds s e k p d h)
    justified _ _ (puts s ledger j q r) k p d h =
        justified s ledger r k p d (laws.put-holds s j k q p d h)
    justified _ _ (finalizes s ledger w t r) k p d h = elim (laws.finalize-holds s w t k p d h) [
      | inl old ↦ inr (justified s ledger r k p d old)
      | inr (place, is) ↦ inl (
        ap (λ x. x.0) place,
        sym is,
        subst (λ q. same_variant_as (target w).1 q ≡ true) (ap (λ x. x.1) place)
            (same_self (target w).1),
      )
    ]
    justified _ _ (invalidates s ledger j r) k p d h =
        let (old, other) = laws.invalidate-holds s j k p d h in
        Any-keep (λ w. not (key_eq j w.key)) (Justifies k p d) ledger
          (λ w at_key. rw (at_key.0, other) refl) (justified s ledger r k p d old)
    justified _ _ (refreshes s ledger e q r) k p d h = elim (laws.refresh-holds s e q k p d h) [
      | inl old ↦ justified s ledger r k p d old
      | inr (is, (old, held, variant)) ↦
          rw is (other_variant k old q d ledger variant (justified s ledger r k old d held))
    ]

    -- An entry opens to a payload of the ledger.
    abbrev pub Shows : S.Store → List Written → CacheKey → S.Entry → Type 0
    Shows s ledger k e =
        (b : Body)
        → (S.open_entry s e).0 ≡ some b
        → (d : Payload) × Gives b d × Any (Justifies k (S.policy e) d) ledger

    All-Shows :
        (s : S.Store) (ledger : List Written) (k : CacheKey) (es : List S.Entry)
        → Reaches s ledger
        → All
            (λ e.
              (b : Body)
              → (S.open_entry s e).0 ≡ some b
              → (d : Payload) × Holds s k (S.policy e) d × Gives b d)
            es
        → All (Shows s ledger k) es
    All-Shows s ledger k [] r h = tt
    All-Shows s ledger k (e ∷ es) r h = (
      λ b opened.
          let (d, held, gives) = h.0 b opened in
          (d, gives, justified s ledger r k (S.policy e) d held),
      All-Shows s ledger k es r h.1,
    )

    -- Whatever operations have run on a storage that keeps the promises of the traits, each entry that
    -- `get` returns opens to what has been written to the end under the key, for the variant of the
    -- entry, since the last invalidation of the key: never to a part of it and never to anything else.
    pub get_entries-Shows :
        (s : S.Store) (ledger : List Written) (k : CacheKey)
        → Reaches s ledger
        → All (Shows s ledger k) (S.get_entries s k)
    get_entries-Shows s ledger k r = All-Shows s ledger k (S.get_entries s k) r (laws.open-get s k)
