-- ===== src/Memory/Buckets.antt =====
-- The variants that one key holds.
use trillium_cache.Prelude.{
  ◌≡◌, ◌↔◌, refl, sym, ◌∙◌, Bool, true, false, not, Option, none, some, List, [], ◌∷◌, ◌++◌, arith,
  keep, All, if◌then◌else◌, Bool-cases, inl, inr,
}
use mathlib.Core.List.{append-nil}
use trillium_cache.Text.Equality.{str_eq_iff}
use trillium_cache.Http.{Http}
use trillium_cache.Http.Laws.{Bool-eq_of_iff}
use trillium_cache.Policy.{CachePolicy, VarySnapshot, snapshot_eq, same_variant_as}
use trillium_cache.Validation.Variants.{option_str_eq_iff}
use trillium_cache.Memory.{Variant, Bucket, insert_variant}

snapshot_eq_iff : (a b : VarySnapshot) → (snapshot_eq a b ≡ true) ↔ (a ≡ b)
unfolding snapshot_eq
snapshot_eq_iff [] [] = ground arith
snapshot_eq_iff [] (y ∷ b) = ground arith
snapshot_eq_iff (x ∷ a) [] = ground arith
snapshot_eq_iff ((n, v) ∷ a) ((m, w) ∷ b) =
    ground (arith, str_eq_iff n m, option_str_eq_iff v w, snapshot_eq_iff a b)

module _ {A : Type 0} (f : A → Bool) where
  pub keep-yes : (x : A) (xs : List A) → f x ≡ true → keep f (x ∷ xs) ≡ x ∷ keep f xs
  keep-yes x xs e = rw (e, keep)

  pub keep-no : (x : A) (xs : List A) → f x ≡ false → keep f (x ∷ xs) ≡ keep f xs
  keep-no x xs e = rw (e, keep)

  keep-append : (xs ys : List A) → keep f (xs ++ ys) ≡ keep f xs ++ keep f ys
  keep-append [] ys = refl
  keep-append (x ∷ xs) ys = elim (Bool-cases (f x)) [
    | inl e ↦ rw (keep-yes x xs e, keep-yes x (xs ++ ys) e, keep-append xs ys)
    | inr e ↦ rw (keep-no x xs e, keep-no x (xs ++ ys) e, keep-append xs ys)
  ]

  All-keep : (P : A → Type 0) (xs : List A) → All P xs → All P (keep f xs)
  All-keep P [] h = tt
  All-keep P (x ∷ xs) h = elim (Bool-cases (f x)) [
    | inl e ↦ rw (keep-yes x xs e) (h.0, All-keep P xs h.1)
    | inr e ↦ rw (keep-no x xs e) (All-keep P xs h.1)
  ]

  keep-All : (xs : List A) → All (λ x. f x ≡ true) (keep f xs)
  keep-All [] = tt
  keep-All (x ∷ xs) = elim (Bool-cases (f x)) [
    | inl e ↦ rw (keep-yes x xs e) (e, keep-All xs)
    | inr e ↦ rw (keep-no x xs e) (keep-All xs)
  ]

  append-All : (P : A → Type 0) (xs : List A) (x : A) → All P xs → P x → All P (xs ++ x ∷ [])
  append-All P [] x h k = (k, tt)
  append-All P (y ∷ xs) x h k = (h.0, append-All P xs x h.1 k)

module _ ⦃http : Http⦄ where
  pub same_variant_as_iff :
      (p q : CachePolicy) → (same_variant_as p q ≡ true) ↔ (p.vary_snapshot ≡ q.vary_snapshot)
  unfolding same_variant_as
  same_variant_as_iff p q = snapshot_eq_iff p.vary_snapshot q.vary_snapshot

  -- Policies with the same values are the same for every other one.
  pub same_variant_as-subst :
      (p q r : CachePolicy) → same_variant_as p q ≡ true → same_variant_as p r ≡ same_variant_as q r
  same_variant_as-subst p q r e =
      Bool-eq_of_iff (same_variant_as p r) (same_variant_as q r)
        (λ f.
          (same_variant_as_iff q r).1
            (sym ((same_variant_as_iff p q).0 e) ∙ (same_variant_as_iff p r).0 f))
        (λ f.
          (same_variant_as_iff p r).1
            ((same_variant_as_iff p q).0 e ∙ (same_variant_as_iff q r).0 f))

  pub same_variant_as_comm : (p q : CachePolicy) → same_variant_as p q ≡ same_variant_as q p
  same_variant_as_comm p q =
      Bool-eq_of_iff (same_variant_as p q) (same_variant_as q p)
        (λ f. (same_variant_as_iff q p).1 (sym ((same_variant_as_iff p q).0 f)))
        (λ f. (same_variant_as_iff p q).1 (sym ((same_variant_as_iff q p).0 f)))

  -- No two variants of a bucket are the same.
  abbrev pub IsBucket : Bucket → Type 0
  IsBucket [] = Unit
  IsBucket (v ∷ b) = All (λ w. same_variant_as w.policy v.policy ≡ false) b × IsBucket b

  -- The variants that are the same as a policy.
  abbrev pub select : CachePolicy → Bucket → Bucket
  select q b = keep (λ v. same_variant_as v.policy q) b

  abbrev pub variants : Option Bucket → Bucket
  variants none = []
  variants (some b) = b

  abbrev others : CachePolicy → Bucket → Bucket
  others q b = keep (λ v. not (same_variant_as v.policy q)) b

  pub insert_variant_lem :
      (v : Variant) (old : Option Bucket)
      → insert_variant v old ≡ others v.policy (variants old) ++ v ∷ []
  unfolding insert_variant
  insert_variant_lem v none = refl
  insert_variant_lem v (some b) = refl

  abbrev different : CachePolicy → Variant → Bool
  different q v = not (same_variant_as v.policy q)

  others-IsBucket : (q : CachePolicy) (b : Bucket) → IsBucket b → IsBucket (others q b)
  others-IsBucket q [] h = tt
  others-IsBucket q (v ∷ b) h = elim (Bool-cases (same_variant_as v.policy q)) [
    | inl e ↦ rw (keep-no (different q) v b (rw e refl)) (others-IsBucket q b h.1)
    | inr e ↦ rw (keep-yes (different q) v b (rw e refl)) (
      All-keep (different q) (λ w. same_variant_as w.policy v.policy ≡ false) b h.0,
      others-IsBucket q b h.1,
    )
  ]

  append-IsBucket :
      (b : Bucket) (v : Variant)
      → IsBucket b
      → All (λ w. different v.policy w ≡ true) b
      → IsBucket (b ++ v ∷ [])
  append-IsBucket [] v h k = (tt, tt)
  append-IsBucket (w ∷ b) v h k = (
    append-All (different v.policy) (λ u. same_variant_as u.policy w.policy ≡ false) b v h.0
        (same_variant_as_comm v.policy w.policy ∙ ground arith),
    append-IsBucket b v h.1 k.1,
  )

  select-others :
      (q p : CachePolicy) (b : Bucket)
      → select q (others p b) ≡ (if same_variant_as p q then [] else select q b)
  select-others q p [] = ground arith
  select-others q p (v ∷ b) = ground (
    arith,
    select-others q p b,
    same_variant_as-subst v.policy p q,
    same_variant_as-subst p q v.policy,
    same_variant_as_comm v.policy p,
    same_variant_as_comm v.policy q,
  )

  -- A bucket stays one where a variant is inserted. The policies that are the same as the new one find
  -- it and nothing else, and the others find what they found before.
  pub insert_variant-IsBucket :
      (v : Variant) (old : Option Bucket) (q : CachePolicy)
      → IsBucket (variants old)
      → IsBucket (insert_variant v old)
        × (select q (insert_variant v old)
            ≡ (if same_variant_as v.policy q then v ∷ [] else select q (variants old)))
  insert_variant-IsBucket v old q h =
      let kept = others v.policy (variants old) in
      rw (insert_variant_lem v old) (
        append-IsBucket kept v (others-IsBucket v.policy (variants old) h)
            (keep-All (different v.policy) (variants old)),
        keep-append (λ w. same_variant_as w.policy q) kept (v ∷ [])
            ∙ ground (
              arith,
              select-others q v.policy (variants old),
              append-nil (select q (variants old)),
            ),
      )
