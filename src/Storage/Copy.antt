-- ===== src/Storage/Copy.antt =====
-- The loop that copies a body into a storage: in `copy_into_storage` of src/client.rs and in
-- `flush_to_cold` of src/tiered.rs.
use trillium_cache.Prelude.{
  ℕ, zero, suc, ◌+◌, ◌-◌, Bool, true, false, none, some, [], ◌∷◌, length, min,
}
use trillium_cache.Text.{u64_mod}
use trillium_cache.Http.{Http}
use trillium_cache.Storage.{Urls}
use trillium_cache.Storage.Traits.{CacheStorage}
use trillium_cache.Tee.Streams.{Streams as TeeStreams}
use trillium_cache.Bodies.{HttpBodies}

module _ ⦃http : Http⦄ ⦃urls : Urls⦄ ⦃streams : TeeStreams⦄ ⦃bodies : HttpBodies⦄ {Handle : Type 0}
    (S : CacheStorage streams.Body Handle) (admits : ℕ → Bool) where
  open streams use {Body, body_trailers}
  open bodies use {read_chunk}
  open S use {Store, write_all, finalize}

  -- The loop, with the number of bytes so far; a total that is not admitted drops the handle. Each round
  -- reads a byte at least, so one unit of fuel more than the body has bytes is enough.
  unfoldable pub copy_chunks : ℕ → Store → Handle → Body → ℕ → Bool × Store
  copy_chunks zero store put body total = (false, store)
  copy_chunks (suc fuel) store put body total =
      let (result, body) = read_chunk body 8192 in
      elim result [
        | none ↦ (false, store)
        | some [] ↦ finalize store put (body_trailers body).0
        | some (b ∷ bytes) ↦
            let total = min (total + length (b ∷ bytes)) (u64_mod - 1) in
            elim (admits total) [
              | false ↦ (true, store)
              | true ↦ elim (write_all put (b ∷ bytes)) [
                | none ↦ (false, store)
                | some put ↦ copy_chunks fuel store put body total
              ]
            ]
      ]
