-- ===== src/Storage/Cap.antt =====
-- A body that is longer than what may be stored.
use trillium_cache.Prelude.{
  ℕ, zero, suc, ◌+◌, ◌-◌, ◌≡◌, ◌<◌, ◌≤◌, inl, inr, refl, ap, ◌∷◌, length, min, leb, arith,
  Bool-cases, Option-cases,
}
use trillium_cache.Text.{u64_mod}
use trillium_cache.Http.{Http}
use trillium_cache.Storage.{Urls}
use trillium_cache.Storage.Traits.{CacheStorage}
use trillium_cache.Storage.Copy.{copy_chunks}
use trillium_cache.Storage.Copied.{broken, ended, read_bytes, read_cases, counted}
use trillium_cache.Tee.Streams.{Streams as TeeStreams}
use trillium_cache.Bodies.{HttpBodies}

module _ ⦃http : Http⦄ ⦃urls : Urls⦄ ⦃streams : TeeStreams⦄ ⦃bodies : HttpBodies⦄ {Handle : Type 0}
    (S : CacheStorage streams.Body Handle) (cap : ℕ) where
  open streams use {Body, whole, yielded}
  open bodies use {read_chunk, read_chunk-end, whole-read_chunk}
  open S use {Store, write_all}

  -- A body that is longer than the cap leaves the storage as it was: no part of it is committed.
  pub copy_chunks-over_cap :
      (fuel : ℕ) (store : Store) (put : Handle) (body : Body) (total : ℕ)
      → total ≡ length (yielded body)
      → total ≤ cap
      → cap < length (whole body)
      → cap < u64_mod - 1
      → (copy_chunks S (λ n. leb n cap) fuel store put body total).1 ≡ store
  unfolding copy_chunks
  copy_chunks-over_cap zero store put body total n le over small = refl
  copy_chunks-over_cap (suc fuel) store put body total n le over small =
      elim (read_cases S (λ m. leb m cap) body (read_chunk body 8192).0 refl) [
        | broken _ e ↦ rw (e, copy_chunks) refl
        | ended _ e ↦
            let all : length (yielded body) ≡ length (whole body) =
              ap length (read_chunk-end body 8192 (omega arith) e) in
            absurd (omega (arith, all, n, le, over))
        | read_bytes _ x bytes e ↦
            let sum = min (total + length (x ∷ bytes)) (u64_mod - 1) in
            let (y, bound) = counted S (λ m. leb m cap) body x bytes total e n in
            let w : length (whole (read_chunk body 8192).1) ≡ length (whole body) =
              ap length (whole-read_chunk body 8192) in
            elim (Bool-cases (leb sum cap)) [
              | inr f ↦ rw (e, copy_chunks) (rw f refl)
              | inl f ↦ elim (Option-cases (write_all put (x ∷ bytes))) [
                | inl g ↦ rw (e, copy_chunks) (rw (f, g) refl)
                | inr (put', g) ↦
                    let fits : sum ≤ cap = ground (arith, f) in
                    rw (e, copy_chunks)
                      (rw (f, g)
                        (copy_chunks-over_cap fuel store put' (read_chunk body 8192).1 sum
                          (omega (arith, y, fits, small)) fits (omega (arith, w, over)) small))
              ]
            ]
      ]
