-- ===== src/Fs/Names.antt =====
-- The names of the files, and the bytes that the hash of a variant is computed from.
use trillium_cache.Prelude.{
  ℕ, ◌≡◌, ◌≢◌, ◌↔◌, refl, sym, ap, true, none, some, List, [], ◌∷◌, ◌++◌, All, arith,
}
use trillium_cache.Text.{Str}
use trillium_cache.Http.{Http}
use trillium_cache.Policy.{CachePolicy, VarySnapshot, same_variant_as}
use trillium_cache.Storage.{Urls}
use trillium_cache.Memory.Buckets.{same_variant_as_iff}
use trillium_cache.Tee.Streams.{Streams as TeeStreams}
use trillium_cache.Fs.Disk.{FileSystem}
use trillium_cache.Fs.{meta_suffix, body_suffix, variant_input}

append_cancel : (h a b : Str) → h ++ a ≡ h ++ b → a ≡ b
append_cancel [] a b e = e
append_cancel (c ∷ h) a b e = append_cancel h a b (cc e)

-- The code after the dot tells a body from its metadata.
second : Str → ℕ
second [] = 0
second (a ∷ []) = 0
second (a ∷ b ∷ s) = b

-- What follows a suffix.
behind : Str → Str
behind [] = []
behind (a ∷ []) = []
behind (a ∷ b ∷ []) = []
behind (a ∷ b ∷ c ∷ []) = []
behind (a ∷ b ∷ c ∷ d ∷ []) = []
behind (a ∷ b ∷ c ∷ d ∷ e ∷ s) = s

pub body-not_meta : (h s t : Str) → h ++ (body_suffix ++ s) ≢ h ++ (meta_suffix ++ t)
unfolding second
body-not_meta h s t e =
    let different : second (body_suffix ++ s) ≡ second (meta_suffix ++ t) =
      ap second (append_cancel h (body_suffix ++ s) (meta_suffix ++ t) e) in
    absurd (omega (arith, different))

pub meta-not_temporary :
    (h : Str) (c : ℕ) (s : Str) → h ++ meta_suffix ≢ h ++ (meta_suffix ++ (c ∷ s))
unfolding behind
meta-not_temporary h c s e =
    let rest : [] ≡ c ∷ s = ap behind (append_cancel h meta_suffix (meta_suffix ++ (c ∷ s)) e) in
    absurd (cc rest)

pub body-not_temporary :
    (h : Str) (c : ℕ) (s : Str) → h ++ body_suffix ≢ h ++ (body_suffix ++ (c ∷ s))
unfolding behind
body-not_temporary h c s e =
    let rest : [] ≡ c ∷ s = ap behind (append_cancel h body_suffix (body_suffix ++ (c ∷ s)) e) in
    absurd (cc rest)

abbrev pub NulFree : Str → Type 0
NulFree s = All (λ c. c ≢ 0) s

-- Neither the names nor the values of a snapshot hold a NUL.
abbrev pub HasNoNul : VarySnapshot → Type 0
HasNoNul [] = Unit
HasNoNul ((name, some value) ∷ rest) = NulFree name × NulFree value × HasNoNul rest
HasNoNul ((name, none) ∷ rest) = NulFree name × HasNoNul rest

-- What stands in front of the first NUL is determined.
first_nul :
    (u v r s : List ℕ) → NulFree u → NulFree v → u ++ (0 ∷ r) ≡ v ++ (0 ∷ s) → (u ≡ v) × (r ≡ s)
first_nul [] [] r s h k e = (refl, cc e)
first_nul [] (y ∷ v) r s h k e = absurd (k.0 (cc e))
first_nul (x ∷ u) [] r s h k e = absurd (h.0 (cc e))
first_nul (x ∷ u) (y ∷ v) r s h k e =
    let (same, rest) = first_nul u v r s h.1 k.1 (cc e) in (cc (e, same), rest)

module _ ⦃http : Http⦄ ⦃urls : Urls⦄ ⦃streams : TeeStreams⦄ ⦃files : FileSystem⦄ where
  open files use {utf8, utf8-injective, utf8-no_nul}

  empty : (u r : List ℕ) → [] ≢ u ++ (0 ∷ r)
  empty [] r e = cc e
  empty (x ∷ u) r e = cc e

  split :
      (n m : Str) (r s : List ℕ)
      → NulFree n
      → NulFree m
      → utf8 n ++ (0 ∷ r) ≡ utf8 m ++ (0 ∷ s)
      → (n ≡ m) × (r ≡ s)
  split n m r s h k e =
      let (same, rest) = first_nul (utf8 n) (utf8 m) r s (utf8-no_nul n h) (utf8-no_nul m k) e in
      (utf8-injective n m same, rest)

  variant_input-injective :
      (a b : VarySnapshot) → HasNoNul a → HasNoNul b → variant_input a ≡ variant_input b → a ≡ b
  unfolding variant_input
  variant_input-injective [] [] h k e = refl
  variant_input-injective [] ((m, some w) ∷ b) h k e = absurd (empty (utf8 m) _ e)
  variant_input-injective [] ((m, none) ∷ b) h k e = absurd (empty (utf8 m) _ e)
  variant_input-injective ((n, some v) ∷ a) [] h k e = absurd (empty (utf8 n) _ (sym e))
  variant_input-injective ((n, none) ∷ a) [] h k e = absurd (empty (utf8 n) _ (sym e))
  variant_input-injective ((n, some v) ∷ a) ((m, none) ∷ b) h k e =
      let (_, rest) = split n m _ _ h.0 k.0 e in absurd (cc rest)
  variant_input-injective ((n, none) ∷ a) ((m, some w) ∷ b) h k e =
      let (_, rest) = split n m _ _ h.0 k.0 e in absurd (cc rest)
  variant_input-injective ((n, none) ∷ a) ((m, none) ∷ b) h k e =
      let (same, rest) = split n m _ _ h.0 k.0 e in
      let more : variant_input a ≡ variant_input b = cc rest in
      let tail = variant_input-injective a b h.1 k.1 more in λ i. (same i, none) ∷ tail i
  variant_input-injective ((n, some v) ∷ a) ((m, some w) ∷ b) h k e =
      let (same, rest) = split n m _ _ h.0 k.0 e in
      let behind_mark : utf8 v ++ (0 ∷ variant_input a) ≡ utf8 w ++ (0 ∷ variant_input b) =
        cc rest in
      let (value, more) = split v w _ _ h.1 k.1 behind_mark in
      let tail = variant_input-injective a b h.2 k.2 more in λ i. (same i, some (value i)) ∷ tail i

  -- Where no name and no value holds a NUL, as in HTTP, the bytes that the hash of a variant is computed
  -- from are equal exactly for policies of the same variant.
  pub variant_input-same_variant_as :
      (p q : CachePolicy)
      → HasNoNul p.vary_snapshot
      → HasNoNul q.vary_snapshot
      → (variant_input p.vary_snapshot ≡ variant_input q.vary_snapshot)
        ↔ (same_variant_as p q ≡ true)
  variant_input-same_variant_as p q h k = (
    λ e.
        (same_variant_as_iff p q).1 (variant_input-injective p.vary_snapshot q.vary_snapshot h k e),
    λ e. ap variant_input ((same_variant_as_iff p q).0 e),
  )
