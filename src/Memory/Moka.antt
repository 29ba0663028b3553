-- ===== src/Memory/Moka.antt =====
-- What the storage in memory uses of the crate moka: a map that may drop any entry at any time.
use trillium_cache.Prelude.{ℕ, ◌≡◌, ◌⊎◌, Bool, Option, none, some, if◌then◌else◌}
use trillium_cache.Time.{Duration}

-- `moka::ops::compute::Op`
pub data Op (V : Type 0) : Type 0 where
  nop : Op V
  put : V → Op V

-- What a key holds after an operation on its entry.
abbrev pub outcome : {V : Type 0} → Op V → Option V → Option V
outcome nop old = old
outcome (put v) old = some v

-- The value, unless the map has dropped it.
abbrev pub Kept : {V : Type 0} → Option V → Option V → Type 0
Kept now expected = (now ≡ expected) ⊎ (now ≡ none)

pub record MokaCache (K V : Type 0) (key_eq : K → K → Bool) : Type 1 where
  pub Cache : Type 0
  -- the builder with a weigher, a capacity, a time to idle and a time to live
  pub build : (V → ℕ) → Option ℕ → Option Duration → Option Duration → Cache
  -- `get`
  pub content : Cache → K → Option V
  -- `entry(key).and_upsert_with` and `entry(key).and_compute_with`, atomic for a key
  pub upsert : Cache → K → (Option V → V) → Cache
  pub compute : Cache → K → (Option V → Op V) → Cache
  pub invalidate : Cache → K → Cache
  pub content-build :
      (w : V → ℕ) (capacity : Option ℕ) (idle live : Option Duration) (k : K)
      → content (build w capacity idle live) k ≡ none
  pub content-upsert :
      (c : Cache) (k j : K) (f : Option V → V)
      → Kept (content (upsert c k f) j) (if key_eq k j then some (f (content c k)) else content c j)
  pub content-compute :
      (c : Cache) (k j : K) (f : Option V → Op V)
      → Kept
          (content (compute c k f) j)
          (if key_eq k j then outcome (f (content c k)) (content c k) else content c j)
  pub content-invalidate :
      (c : Cache) (k j : K)
      → Kept (content (invalidate c k) j) (if key_eq k j then none else content c j)
