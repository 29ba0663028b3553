-- ===== src/Validation/Strong.antt =====
-- The strong tags of an `If-None-Match`, which a request that must not be answered by a weak one keeps.
use trillium_cache.Prelude.{
  ℕ, ◌≡◌, refl, ap, ◌∙◌, Bool, false, not, List, [], ◌∷◌, ◌++◌, All, map, keep, ◌==◌, inl, inr,
  Bool-cases,
}
use trillium_cache.Text.{
  Str, codes, trim, trim_start, split, starts_with, strip_prefix, join, is_whitespace,
}
use trillium_cache.Text.Pieces.{trim-concat}
use trillium_cache.Validation.Etag.{quote, weak_prefix}
use trillium_cache.Validation.Etag.Tags.{EntityTag, render, render_list}
use trillium_cache.Validation.{strong_tags}

abbrev is_comma : ℕ → Bool
is_comma c = c == b','

-- No comma is inside the tag.
abbrev pub IsUncut : EntityTag → Type 0
IsUncut t = All (λ c. is_comma c ≡ false) t.opaque

All-concat : (P : ℕ → Type 0) (s : Str) (c : ℕ) → All P s → P c → All P (s ++ c ∷ [])
All-concat P [] c h g = (g, tt)
All-concat P (x ∷ s) c h g = (h.0, All-concat P s c h.1 g)

split_whole : (s : Str) → All (λ c. is_comma c ≡ false) s → split is_comma s ≡ s ∷ []
unfolding split
split_whole [] h = refl
split_whole (c ∷ s) h = rw (split_whole s h.1, h.0) refl

split_comma :
    (s rest : Str)
    → All (λ c. is_comma c ≡ false) s
    → split is_comma (s ++ b',' ∷ rest) ≡ s ∷ split is_comma rest
unfolding split
split_comma [] rest h = refl
split_comma (c ∷ s) rest h = rw (split_comma s rest h.1, h.0) refl

first_of_split : (s : Str) → (a : Str) × (r : List Str) × (split is_comma s ≡ a ∷ r)
unfolding split
first_of_split [] = ([], [], refl)
first_of_split (c ∷ s) =
    let (a, r, e) = first_of_split s in
    elim (Bool-cases (is_comma c)) [
      | inl f ↦ ([], a ∷ r, rw (e, f) refl)
      | inr f ↦ (c ∷ a, r, rw (e, f) refl)
    ]

-- A space behind a comma is trimmed.
trim_spaced : (s : Str) → map trim (split is_comma (b' ' ∷ s)) ≡ map trim (split is_comma s)
unfolding split trim trim_start is_whitespace
trim_spaced s = let (a, r, e) = first_of_split s in rw e refl

render-uncut : (t : EntityTag) → IsUncut t → All (λ c. is_comma c ≡ false) (render t)
render-uncut t h = elim (Bool-cases t.weak) [
  | inl e ↦ rw e (refl, (refl, (refl, All-concat _ t.opaque quote h refl)))
  | inr e ↦ rw e (refl, All-concat _ t.opaque quote h refl)
]

trim-render : (t : EntityTag) → trim (render t) ≡ render t
unfolding is_whitespace
trim-render t = elim (Bool-cases t.weak) [
  | inl e ↦ rw e (trim-concat b'W' (b'/' ∷ quote ∷ t.opaque) quote refl refl)
  | inr e ↦ rw e (trim-concat quote t.opaque quote refl refl)
]

pieces_lem :
    (t : EntityTag) (ts : List EntityTag)
    → All IsUncut (t ∷ ts)
    → map trim (split is_comma (render_list (t ∷ ts))) ≡ map render (t ∷ ts)
unfolding join
pieces_lem t [] h = rw (split_whole (render t) (render-uncut t h.0), trim-render t) refl
pieces_lem t (u ∷ ts) h =
    rw
      (
        split_comma (render t) (b' ' ∷ render_list (u ∷ ts)) (render-uncut t h.0),
        trim-render t,
        trim_spaced (render_list (u ∷ ts)),
      )
      (ap (λ l. render t ∷ l) (pieces_lem u ts h.1))

weak_prefix-render : (t : EntityTag) → starts_with weak_prefix (render t) ≡ t.weak
unfolding starts_with strip_prefix
weak_prefix-render t = elim (Bool-cases t.weak) [ inl e ↦ rw e refl | inr e ↦ rw e refl ]

keep-map :
    {A B : Type 0} (f : A → B) (p : B → Bool) (q : A → Bool)
    → ((x : A) → p (f x) ≡ q x)
    → (xs : List A) → keep p (map f xs) ≡ map f (keep q xs)
keep-map f p q same [] = refl
keep-map f p q same (x ∷ xs) = elim (Bool-cases (q x)) [
  | inl e ↦ rw (same x ∙ e, keep) (rw (e, keep) (rw (keep-map f p q same xs) refl))
  | inr e ↦ rw (same x ∙ e, keep) (rw (e, keep) (rw (keep-map f p q same xs) refl))
]

-- Of a list of tags without commas inside, the strong ones are left, in their order.
pub strong_tags-render_list :
    (t : EntityTag) (ts : List EntityTag)
    → All IsUncut (t ∷ ts)
    → strong_tags (render_list (t ∷ ts)) ≡ render_list (keep (λ u. not u.weak) (t ∷ ts))
unfolding strong_tags
strong_tags-render_list t ts h =
    ap (λ l. join (codes ", ") (keep (λ s. not (starts_with weak_prefix s)) l)) (pieces_lem t ts h)
    ∙ ap (join (codes ", ")) (
        keep-map render (λ s. not (starts_with weak_prefix s)) (λ u. not u.weak)
          (λ u. ap not (weak_prefix-render u)) (t ∷ ts))
