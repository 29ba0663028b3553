-- ===== src/Validation/Etag/Tags.antt =====
-- Lists of entity-tags, as they are written in a header and as they are read.
use trillium_cache.Prelude.{
  ℕ, zero, suc, ◌+◌, ◌≤◌, ◌<◌, ◌≡◌, refl, sym, ap, and_then, ◌∙◌, Bool, true, false, Option, some,
  List, [], ◌∷◌, ◌++◌, arith, All, any, map, length, length-append, if◌then◌else◌, ◌==◌,
}
use mathlib.Core.List.{append_assoc, append-nil}
use trillium_cache.Text.{
  Str, str_eq, codes, trim, trim_start, strip_prefix, split_once, is_whitespace, join,
}
use trillium_cache.Text.Pieces.{trim-concat, split_once-append, strip_suffix_char-concat}
use trillium_cache.Validation.Etag.{
  quote, weak_prefix, etag_opaque, skip_separators, next_opaque, opaques_fuel, iter_etag_opaques,
  inm_matches,
}

-- An entity-tag of RFC 9110 §8.8.3.
pub record EntityTag : Type 0 where
  pub weak : Bool
  pub opaque : Str

abbrev pub render : EntityTag → Str
render t = (if t.weak then weak_prefix else []) ++ (quote ∷ (t.opaque ++ quote ∷ []))

-- What a header with several tags holds.
abbrev pub render_list : List EntityTag → Str
render_list ts = join (codes ", ") (map render ts)

-- No tag has a quote inside.
abbrev pub IsQuotable : EntityTag → Type 0
IsQuotable t = All (λ c. (c == quote) ≡ false) t.opaque

-- The tags after the first one.
more_tags : List EntityTag → Str
more_tags [] = []
more_tags (t ∷ ts) = b',' ∷ b' ' ∷ (render t ++ more_tags ts)

render_list-cons :
    (t : EntityTag) (ts : List EntityTag) → render_list (t ∷ ts) ≡ render t ++ more_tags ts
unfolding join more_tags
render_list-cons t [] = sym (append-nil (render t))
render_list-cons t (u ∷ ts) = ap (λ s. render t ++ (b',' ∷ b' ' ∷ s)) (render_list-cons u ts)

-- A tag without the closing quote, before `s`.
abbrev opening : Bool → Str → Str
opening w s = (if w then weak_prefix else []) ++ (quote ∷ s)

skip_render : (w : Bool) (f : ℕ) (s : Str) → 2 ≤ f → skip_separators f (opening w s) ≡ quote ∷ s
unfolding skip_separators trim_start strip_prefix
skip_render true zero s h = absurd (omega arith)
skip_render true (suc zero) s h = absurd (omega arith)
skip_render true (suc (suc f)) s h = refl
skip_render false zero s h = absurd (omega arith)
skip_render false (suc f) s h = refl

skip_comma :
    (f : ℕ) (s : Str) → skip_separators (suc f) (b',' ∷ b' ' ∷ s) ≡ skip_separators f (b' ' ∷ s)
unfolding skip_separators trim_start strip_prefix
skip_comma f s = refl

skip_space :
    (w : Bool) (f : ℕ) (s : Str) → 2 ≤ f → skip_separators f (b' ' ∷ opening w s) ≡ quote ∷ s
unfolding skip_separators trim_start strip_prefix
skip_space true zero s h = absurd (omega arith)
skip_space true (suc zero) s h = absurd (omega arith)
skip_space true (suc (suc f)) s h = refl
skip_space false zero s h = absurd (omega arith)
skip_space false (suc f) s h = refl

render-append :
    (t : EntityTag) (rest : Str) → render t ++ rest ≡ opening t.weak (t.opaque ++ quote ∷ rest)
render-append t rest =
    append_assoc (if t.weak then weak_prefix else []) (quote ∷ (t.opaque ++ quote ∷ [])) rest
    ∙ ap (λ s. opening t.weak s) (append_assoc t.opaque (quote ∷ []) rest)

length-opening : (w : Bool) (s : Str) → length s + 1 ≤ length (opening w s)
length-opening true s = omega arith
length-opening false s = omega arith

length-render : (t : EntityTag) → 1 ≤ length (render t)
length-render t = omega (arith, length-opening t.weak (t.opaque ++ quote ∷ []))

after_quote :
    (t : EntityTag) (rest : Str)
    → IsQuotable t
    → and_then (strip_prefix (quote ∷ []) (quote ∷ (t.opaque ++ quote ∷ rest))) (split_once quote)
      ≡ some (t.opaque, rest)
unfolding strip_prefix
after_quote t rest q = split_once-append quote t.opaque rest q

next_opaque-render :
    (t : EntityTag) (rest : Str)
    → IsQuotable t
    → next_opaque (render t ++ rest) ≡ some (t.opaque, rest)
unfolding next_opaque
next_opaque-render t rest q = rw (render-append t rest) (
    rw
      (skip_render t.weak (suc (length (opening t.weak (t.opaque ++ quote ∷ rest))))
        (t.opaque ++ quote ∷ rest)
        (omega (arith, length-opening t.weak (t.opaque ++ quote ∷ rest))))
      (after_quote t rest q))

next_opaque-comma :
    (t : EntityTag) (rest : Str)
    → IsQuotable t
    → next_opaque (b',' ∷ b' ' ∷ (render t ++ rest)) ≡ some (t.opaque, rest)
unfolding next_opaque
next_opaque-comma t rest q = rw (render-append t rest) (
    rw (skip_comma _ (opening t.weak (t.opaque ++ quote ∷ rest))) (
      rw
        (skip_space t.weak (suc (suc (length (opening t.weak (t.opaque ++ quote ∷ rest)))))
          (t.opaque ++ quote ∷ rest) (omega arith))
        (after_quote t rest q)))

abbrev pub opaques : List EntityTag → List Str
opaques ts = map (λ t. t.opaque) ts

opaques_fuel-more :
    (ts : List EntityTag) (f : ℕ)
    → length ts ≤ f
    → All IsQuotable ts
    → opaques_fuel f (more_tags ts) ≡ opaques ts
unfolding opaques_fuel more_tags
opaques_fuel-more [] zero h q = refl
opaques_fuel-more [] (suc f) h q =
    unfold next_opaque skip_separators trim_start strip_prefix in refl
opaques_fuel-more (t ∷ ts) zero h q = absurd (omega arith)
opaques_fuel-more (t ∷ ts) (suc f) h q =
    rw (next_opaque-comma t (more_tags ts) q.0, opaques_fuel)
      (ap (λ r. t.opaque ∷ r) (opaques_fuel-more ts f (omega arith) q.1))

length-more_tags : (ts : List EntityTag) → length ts ≤ length (more_tags ts)
unfolding more_tags
length-more_tags [] = omega arith
length-more_tags (t ∷ ts) =
    omega (arith, length-more_tags ts, length-append {0} (render t) (more_tags ts))

opaques_fuel-first :
    (t : EntityTag) (ts : List EntityTag) (f : ℕ)
    → length ts < f
    → All IsQuotable (t ∷ ts)
    → opaques_fuel f (render t ++ more_tags ts) ≡ opaques (t ∷ ts)
unfolding opaques_fuel
opaques_fuel-first t ts zero h q = absurd (omega arith)
opaques_fuel-first t ts (suc f) h q =
    rw (next_opaque-render t (more_tags ts) q.0, opaques_fuel)
      (ap (λ r. t.opaque ∷ r) (opaques_fuel-more ts f (omega arith) q.1))

-- The tags of a list are read back, strong or weak, however many there are.
pub iter_etag_opaques-render_list :
    (ts : List EntityTag) → All IsQuotable ts → iter_etag_opaques (render_list ts) ≡ opaques ts
unfolding iter_etag_opaques
iter_etag_opaques-render_list [] q = unfold join opaques_fuel in refl
iter_etag_opaques-render_list (t ∷ ts) q = rw (render_list-cons t ts) (
    opaques_fuel-first t ts (length (render t ++ more_tags ts))
      (omega
        (arith, length-append {0} (render t) (more_tags ts), length-more_tags ts, length-render t))
      q)

-- A text that begins with neither white space nor a `*`, and ends with a quote.
abbrev IsFramed : Str → Type 0
IsFramed s =
    (d : ℕ) × (r : Str) × (s ≡ d ∷ (r ++ quote ∷ []))
    × (is_whitespace d ≡ false)
    × ((d == b'*') ≡ false)

opening-IsFramed : (w : Bool) (s : Str) → IsFramed (opening w (s ++ quote ∷ []))
unfolding is_whitespace
opening-IsFramed true s = (b'W', b'/' ∷ quote ∷ s, refl, refl, refl)
opening-IsFramed false s = (quote, s, refl, refl, refl)

IsFramed-append : (a s b : Str) → IsFramed a → IsFramed b → IsFramed (a ++ (s ++ b))
IsFramed-append a s b (d, r, e, h, k) (d', r', e', _, _) =
    let tail : Str = r ++ quote ∷ [] in
    (d, tail ++ (s ++ (d' ∷ r')), rw (e, e') (simp append_assoc), h, k)

render_list-IsFramed : (t : EntityTag) (ts : List EntityTag) → IsFramed (render_list (t ∷ ts))
unfolding join
render_list-IsFramed t [] = opening-IsFramed t.weak t.opaque
render_list-IsFramed t (u ∷ ts) =
    IsFramed-append (render t) (codes ", ") (render_list (u ∷ ts))
      (opening-IsFramed t.weak t.opaque) (render_list-IsFramed u ts)

IsFramed-trim : (s : Str) → IsFramed s → trim s ≡ s
IsFramed-trim s (d, r, e, h, _) = rw e (trim-concat d r quote h (unfold is_whitespace in refl))

IsFramed-ne-star : (s : Str) → IsFramed s → str_eq s (codes "*") ≡ false
unfolding str_eq
IsFramed-ne-star s (d, r, e, _, k) = rw (e, k)

opaque_of : (w : Bool) (s : Str) → etag_opaque (opening w (s ++ quote ∷ [])) ≡ some s
unfolding etag_opaque strip_prefix
opaque_of true s = rw (IsFramed-trim _ (opening-IsFramed true s)) (strip_suffix_char-concat quote s)
opaque_of false s =
    rw (IsFramed-trim _ (opening-IsFramed false s)) (strip_suffix_char-concat quote s)

inm_matches_lem :
    (s : Str) (cached : Option Str) (o : Str)
    → trim s ≡ s
    → str_eq s (codes "*") ≡ false
    → and_then cached etag_opaque ≡ some o
    → inm_matches s cached ≡ any (λ tag. str_eq tag o) (iter_etag_opaques s)
unfolding inm_matches
inm_matches_lem s cached o e k f = rw (e, k, f, inm_matches) (rw e)

-- `If-None-Match` with a list of tags matches a stored tag exactly when one of the list has the same
-- opaque part, whichever of them are weak.
pub inm_matches-render_list :
    (t : EntityTag) (ts : List EntityTag) (c : EntityTag)
    → All IsQuotable (t ∷ ts)
    → inm_matches (render_list (t ∷ ts)) (some (render c))
      ≡ any (λ tag. str_eq tag c.opaque) (opaques (t ∷ ts))
inm_matches-render_list t ts c q =
    let framed = render_list-IsFramed t ts in
    inm_matches_lem (render_list (t ∷ ts)) (some (render c)) c.opaque
      (IsFramed-trim (render_list (t ∷ ts)) framed) (IsFramed-ne-star (render_list (t ∷ ts)) framed)
      (opaque_of c.weak c.opaque)
    ∙ ap (any (λ tag. str_eq tag c.opaque)) (iter_etag_opaques-render_list (t ∷ ts) q)
