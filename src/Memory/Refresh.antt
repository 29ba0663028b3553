-- ===== src/Memory/Refresh.antt =====
-- A new policy for a stored variant.
use trillium_cache.Prelude.{
  ◌≡◌, refl, sym, ap, ◌∙◌, Bool, true, false, Option, none, some, List, [], ◌∷◌, map, All,
  if◌then◌else◌, Bool-cases, inl, inr, ℕ,
}
use trillium_cache.Http.{Http}
use trillium_cache.Policy.{CachePolicy, same_variant_as}
use trillium_cache.Memory.Moka.{outcome}
use trillium_cache.Memory.{Variant, Bucket, replace_policy, refresh_bucket}
use trillium_cache.Memory.Buckets.{
  IsBucket, select, variants, keep-yes, keep-no, same_variant_as-subst, same_variant_as_comm,
}

module _ ⦃http : Http⦄ where
  open http use {Headers}

  -- What a variant stores beside its policy.
  abbrev pub payload : Variant → List ℕ × Option Headers
  payload v = (v.body, v.trailers)

  -- The variant with a policy, if it is the same as that.
  abbrev pub refreshed : CachePolicy → Variant → Variant
  refreshed p v = if same_variant_as v.policy p then record v { policy = p } else v

  replace_policy-true : (p : CachePolicy) (b : Bucket) → replace_policy p true b ≡ (b, true)
  unfolding replace_policy
  replace_policy-true p [] = refl
  replace_policy-true p (v ∷ b) = rw (replace_policy-true p b) refl

  -- where the rest of the bucket differs from the first variant, only that one changes
  refreshed-rest :
      (p : CachePolicy) (b : Bucket)
      → All (λ w. same_variant_as w.policy p ≡ false) b
      → map (refreshed p) b ≡ b
  refreshed-rest p [] h = refl
  refreshed-rest p (w ∷ b) h = rw (h.0, refreshed-rest p b h.1) refl

  All-map :
      (P Q : Variant → Type 0) (f : (v : Variant) → P v → Q v) (b : Bucket) → All P b → All Q b
  All-map P Q f [] h = tt
  All-map P Q f (v ∷ b) h = (f v h.0, All-map P Q f b h.1)

  replace_policy_lem :
      (p : CachePolicy) (b : Bucket)
      → IsBucket b
      → (replace_policy p false b).0 ≡ map (refreshed p) b
  unfolding replace_policy
  replace_policy_lem p [] h = refl
  replace_policy_lem p (v ∷ b) h = elim (Bool-cases (same_variant_as v.policy p)) [
    | inl e ↦
        let rest =
          All-map _ _
            (λ w d.
              sym (same_variant_as_comm p w.policy)
              ∙ sym (same_variant_as-subst v.policy p w.policy e)
              ∙ same_variant_as_comm v.policy w.policy
              ∙ d)
            b h.0 in
        rw (e, replace_policy-true p b, refreshed-rest p b rest) refl
    | inr e ↦ rw (e, replace_policy_lem p b h.1) refl
  ]

  not_updated :
      (p : CachePolicy) (b : Bucket)
      → (replace_policy p false b).1 ≡ false
      → (replace_policy p false b).0 ≡ b
  unfolding replace_policy
  not_updated p [] e = refl
  not_updated p (v ∷ b) e = elim (Bool-cases (same_variant_as v.policy p)) [
    | inl f ↦ absurd (cc (e, ap (λ r. r.1) (replace_policy-true p b), f))
    | inr f ↦ rw (f, not_updated p b (rw f at e)) refl
  ]

  -- Which variant it is does not change.
  same-refreshed :
      (p q : CachePolicy) (v : Variant)
      → same_variant_as (refreshed p v).policy q ≡ same_variant_as v.policy q
  same-refreshed p q v = elim (Bool-cases (same_variant_as v.policy p)) [
    | inl e ↦ rw e (sym (same_variant_as-subst v.policy p q e))
    | inr e ↦ rw e refl
  ]

  All-refreshed :
      (p : CachePolicy) (v : Variant) (b : Bucket)
      → All (λ w. same_variant_as w.policy v.policy ≡ false) b
      → All (λ w. same_variant_as w.policy (refreshed p v).policy ≡ false) (map (refreshed p) b)
  All-refreshed p v [] h = tt
  All-refreshed p v (w ∷ b) h = (
    same-refreshed p (refreshed p v).policy w
        ∙ same_variant_as_comm w.policy (refreshed p v).policy
        ∙ same-refreshed p w.policy v
        ∙ same_variant_as_comm v.policy w.policy
        ∙ h.0,
    All-refreshed p v b h.1,
  )

  map-refreshed-IsBucket :
      (p : CachePolicy) (b : Bucket) → IsBucket b → IsBucket (map (refreshed p) b)
  map-refreshed-IsBucket p [] h = tt
  map-refreshed-IsBucket p (v ∷ b) h = (All-refreshed p v b h.0, map-refreshed-IsBucket p b h.1)

  abbrev sel : CachePolicy → Variant → Bool
  sel q v = same_variant_as v.policy q

  select-map :
      (p q : CachePolicy) (b : Bucket)
      → select q (map (refreshed p) b) ≡ map (refreshed p) (select q b)
  select-map p q [] = refl
  select-map p q (v ∷ b) = elim (Bool-cases (same_variant_as v.policy q)) [
    | inl e ↦
        keep-yes (sel q) (refreshed p v) (map (refreshed p) b) (same-refreshed p q v ∙ e)
        ∙ ap (λ r. refreshed p v ∷ r) (select-map p q b)
        ∙ sym (ap (map (refreshed p)) (keep-yes (sel q) v b e))
    | inr e ↦
        keep-no (sel q) (refreshed p v) (map (refreshed p) b) (same-refreshed p q v ∙ e)
        ∙ select-map p q b
        ∙ sym (ap (map (refreshed p)) (keep-no (sel q) v b e))
  ]

  payload-refreshed : (p : CachePolicy) (v : Variant) → payload (refreshed p v) ≡ payload v
  payload-refreshed p v = elim (Bool-cases (same_variant_as v.policy p)) [
    | inl e ↦ rw e refl
    | inr e ↦ rw e refl
  ]

  map-payload : (p : CachePolicy) (b : Bucket) → map payload (map (refreshed p) b) ≡ map payload b
  map-payload p [] = refl
  map-payload p (v ∷ b) = rw (payload-refreshed p v, map-payload p b) refl

  pub variants-refresh :
      (p : CachePolicy) (old : Option Bucket)
      → IsBucket (variants old)
      → variants (outcome (refresh_bucket p old) old) ≡ map (refreshed p) (variants old)
  unfolding refresh_bucket
  variants-refresh p none h = refl
  variants-refresh p (some b) h = elim (Bool-cases (replace_policy p false b).1) [
    | inl e ↦ rw e (replace_policy_lem p b h)
    | inr e ↦ rw e (sym (not_updated p b e) ∙ replace_policy_lem p b h)
  ]

  -- A refresh gives the new policy to the stored variant that is the same, if there is one. The bucket
  -- stays one, each policy finds the variants that it found, and all bodies and trailers stay.
  pub refresh_bucket_lem :
      (p : CachePolicy) (old : Option Bucket) (q : CachePolicy)
      → IsBucket (variants old)
      → IsBucket (variants (outcome (refresh_bucket p old) old))
        × (select q (variants (outcome (refresh_bucket p old) old))
            ≡ map (refreshed p) (select q (variants old)))
        × (map payload (variants (outcome (refresh_bucket p old) old)) ≡ map payload (variants old))
  refresh_bucket_lem p old q h = rw (variants-refresh p old h) (
    map-refreshed-IsBucket p (variants old) h,
    select-map p q (variants old),
    map-payload p (variants old),
  )
