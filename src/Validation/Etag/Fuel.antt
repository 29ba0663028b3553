-- ===== src/Validation/Etag/Fuel.antt =====
-- The fuel of the loops that read a list of entity-tags.
use trillium_cache.Prelude.{
  ℕ, zero, suc, ◌+◌, ◌≤◌, ◌<◌, ◌≡◌, refl, sym, ap, ◌∙◌, some, [], ◌∷◌, arith, length, ◌==◌,
  Option-cases, inl, inr, and_then, Bool-cases,
}
use trillium_cache.Text.{Str, trim_start, strip_prefix, split_once, is_whitespace}
use trillium_cache.Validation.Etag.{quote, weak_prefix, skip_separators, next_opaque, opaques_fuel}

length-trim_start : (s : Str) → length (trim_start s) ≤ length s
unfolding trim_start
length-trim_start [] = omega arith
length-trim_start (c ∷ s) = elim (Bool-cases (is_whitespace c)) [
  | inl e ↦ rw (e, trim_start) (omega (arith, length-trim_start s))
  | inr e ↦ rw (e, trim_start) (omega arith)
]

length-strip_prefix :
    (p s rest : Str) → strip_prefix p s ≡ some rest → length s ≡ length p + length rest
unfolding strip_prefix
length-strip_prefix [] s rest e = ground arith
length-strip_prefix (c ∷ p) [] rest e = cc
length-strip_prefix (c ∷ p) (x ∷ s) rest e = ground (arith, length-strip_prefix p s rest)

length-split_once : (c : ℕ) (s a b : Str) → split_once c s ≡ some (a, b) → length b < length s
unfolding split_once
length-split_once c [] a b e = cc
length-split_once c (x ∷ s) a b e = elim (Bool-cases (x == c)) [
  | inl z ↦ ground (arith, rw z at e)
  | inr z ↦ elim (Option-cases (split_once c s)) [
    | inl f ↦ ground (arith, rw (z, f) at e)
    | inr ((a', b'), f) ↦ ground (arith, rw (z, f) at e, length-split_once c s a' b' f)
  ]
]

-- what is left after a separator
shorter :
    (p s rest : Str)
    → 0 < length p
    → strip_prefix p (trim_start s) ≡ some rest
    → length rest < length s
shorter p s rest h e =
    omega (arith, h, length-strip_prefix p (trim_start s) rest e, length-trim_start s)

length-skip : (f : ℕ) (s : Str) → length (skip_separators f s) ≤ length s
unfolding skip_separators
length-skip zero s = omega arith
length-skip (suc f) s = elim (Option-cases (strip_prefix (b',' ∷ []) (trim_start s))) [
  | inr (rest, e) ↦
      rw (e, skip_separators)
        (omega (arith, length-skip f rest, shorter (b',' ∷ []) s rest (omega arith) e))
  | inl e ↦ elim (Option-cases (strip_prefix weak_prefix (trim_start s))) [
    | inr (rest, g) ↦
        rw (e, skip_separators)
          (rw g (omega (arith, length-skip f rest, shorter weak_prefix s rest (omega arith) g)))
    | inl g ↦ rw (e, skip_separators) (rw g (length-trim_start s))
  ]
]

-- The same for the loop that skips what stands before an entity-tag: any two amounts that are larger than
-- the length of the text leave the same.
pub skip-enough_fuel :
    (f g : ℕ) (s : Str) → length s < f → length s < g → skip_separators f s ≡ skip_separators g s
unfolding skip_separators
skip-enough_fuel zero g s h k = absurd (omega (arith, h))
skip-enough_fuel (suc f) zero s h k = absurd (omega (arith, k))
skip-enough_fuel (suc f) (suc g) s h k =
    elim (Option-cases (strip_prefix (b',' ∷ []) (trim_start s))) [
      | inr (rest, e) ↦
          let less = shorter (b',' ∷ []) s rest (omega arith) e in
          rw (e, skip_separators)
            (skip-enough_fuel f g rest (omega (arith, less, h)) (omega (arith, less, k)))
      | inl e ↦ elim (Option-cases (strip_prefix weak_prefix (trim_start s))) [
        | inr (rest, j) ↦
            let less = shorter weak_prefix s rest (omega arith) j in
            rw (e, skip_separators)
              (rw j (skip-enough_fuel f g rest (omega (arith, less, h)) (omega (arith, less, k))))
        | inl j ↦ rw (e, skip_separators) (rw j refl)
      ]
    ]

next_opaque-shorter : (s tag rest : Str) → next_opaque s ≡ some (tag, rest) → length rest < length s
unfolding next_opaque
next_opaque-shorter s tag rest e =
    elim (Option-cases (strip_prefix (quote ∷ []) (skip_separators (suc (length s)) s))) [
      | inl missing ↦ cc (e, ap (λ o. and_then o (split_once quote)) missing)
      | inr (inner, found) ↦ omega (
        arith,
        length-split_once quote inner tag rest (rw found at e),
        length-strip_prefix (quote ∷ []) (skip_separators (suc (length s)) s) inner found,
        length-skip (suc (length s)) s,
      )
    ]

opaques_fuel-nil : (f : ℕ) → opaques_fuel f [] ≡ []
unfolding opaques_fuel next_opaque skip_separators trim_start strip_prefix
opaques_fuel-nil zero = refl
opaques_fuel-nil (suc f) = refl

-- The loop over the entity-tags of any text ends before its fuel does: any two amounts that are no less
-- than the length of the text give the same tags, so the length is enough.
pub opaques-enough_fuel :
    (f g : ℕ) (s : Str) → length s ≤ f → length s ≤ g → opaques_fuel f s ≡ opaques_fuel g s
unfolding opaques_fuel
opaques-enough_fuel f g [] h k = opaques_fuel-nil f ∙ sym (opaques_fuel-nil g)
opaques-enough_fuel zero g (c ∷ s) h k = absurd (omega (arith, h))
opaques-enough_fuel (suc f) zero (c ∷ s) h k = absurd (omega (arith, k))
opaques-enough_fuel (suc f) (suc g) (c ∷ s) h k = elim (Option-cases (next_opaque (c ∷ s))) [
  | inl e ↦ rw (e, opaques_fuel) refl
  | inr ((tag, rest), e) ↦
      let less = next_opaque-shorter (c ∷ s) tag rest e in
      rw (e, opaques_fuel)
        (ap (λ r. tag ∷ r)
          (opaques-enough_fuel f g rest (omega (arith, less, h)) (omega (arith, less, k))))
]
