-- ===== src/Storage/Copied.antt =====
-- What the loop that copies a body leaves in the storage.
use trillium_cache.Prelude.{
  ℕ, zero, suc, ◌+◌, ◌-◌, ◌≡◌, ◌≢◌, ◌⊎◌, ◌<◌, ◌≤◌, inl, inr, refl, sym, ap, ◌∙◌, Bool, true, Option,
  none, some, List, [], ◌∷◌, ◌++◌, length, length-append, min, arith, Bool-cases, Option-cases,
}
use mathlib.Core.List.{append-nil}
use trillium_cache.Text.{u64_mod}
use trillium_cache.Http.{Http}
use trillium_cache.Policy.{CachePolicy}
use trillium_cache.Storage.{Urls, CacheKey}
use trillium_cache.Storage.Traits.{CacheStorage, IsLawful, Payload}
use trillium_cache.Storage.Copy.{copy_chunks}
use trillium_cache.Tee.Streams.{Streams as TeeStreams}
use trillium_cache.Bodies.{HttpBodies}

module _ ⦃http : Http⦄ ⦃urls : Urls⦄ ⦃streams : TeeStreams⦄ ⦃bodies : HttpBodies⦄ {Handle : Type 0}
    (S : CacheStorage streams.Body Handle) (admits : ℕ → Bool) where
  open streams use {Body, whole, yielded, body_trailers}
  open bodies use {
    read_chunk, ends_with, yielded-read_chunk, whole-read_chunk, ends_with-read_chunk,
    read_chunk-end, trailers-end, length-yielded,
  }
  open S use {Store, write_all, finalize}

  -- What a read of the loop gives: an error, the end, or bytes.
  pub data Chunk : Body → Type 0 where
    broken : (b : Body) → (read_chunk b 8192).0 ≡ none → Chunk b
    ended : (b : Body) → (read_chunk b 8192).0 ≡ some [] → Chunk b
    read_bytes :
        (b : Body) (x : ℕ) (bytes : List ℕ) → (read_chunk b 8192).0 ≡ some (x ∷ bytes) → Chunk b

  pub read_cases : (b : Body) (result : Option (List ℕ)) → (read_chunk b 8192).0 ≡ result → Chunk b
  read_cases b none e = broken b e
  read_cases b (some []) e = ended b e
  read_cases b (some (x ∷ bytes)) e = read_bytes b x bytes e

  read_more :
      (b : Body) (x : ℕ) (bytes : List ℕ)
      → (read_chunk b 8192).0 ≡ some (x ∷ bytes)
      → yielded (read_chunk b 8192).1 ≡ yielded b ++ x ∷ bytes
  read_more b x bytes e = yielded-read_chunk b 8192 ∙ rw e refl

  -- The bytes that a body has not given out yet, counted.
  abbrev pub unread : Body → ℕ
  unread b = length (whole b) - length (yielded b)

  fewer :
      (b : Body) (x : ℕ) (bytes : List ℕ) (fuel : ℕ)
      → (read_chunk b 8192).0 ≡ some (x ∷ bytes)
      → unread b < suc fuel
      → unread (read_chunk b 8192).1 < fuel
  fewer b x bytes fuel e h =
      let y : length (yielded (read_chunk b 8192).1) ≡ length (yielded b) + length (x ∷ bytes) =
        ap length (read_more b x bytes e) ∙ length-append (yielded b) (x ∷ bytes) in
      let w : length (whole (read_chunk b 8192).1) ≡ length (whole b) =
        ap length (whole-read_chunk b 8192) in
      omega (arith, y, w, length-yielded b, length-yielded (read_chunk b 8192).1, h)

  -- The loop ends before its fuel does: any two amounts that are larger than the number of bytes that the
  -- body has left give the same.
  pub copy_chunks-enough_fuel :
      (fuel more : ℕ) (store : Store) (put : Handle) (body : Body) (total : ℕ)
      → unread body < fuel
      → unread body < more
      → copy_chunks S admits fuel store put body total
        ≡ copy_chunks S admits more store put body total
  unfolding copy_chunks
  copy_chunks-enough_fuel zero more store put body total h k = absurd (omega (arith, h))
  copy_chunks-enough_fuel (suc fuel) zero store put body total h k = absurd (omega (arith, k))
  copy_chunks-enough_fuel (suc fuel) (suc more) store put body total h k =
      elim (read_cases body (read_chunk body 8192).0 refl) [
        | broken _ e ↦ rw (e, copy_chunks) refl
        | ended _ e ↦ rw (e, copy_chunks) refl
        | read_bytes _ x bytes e ↦
            let sum = min (total + length (x ∷ bytes)) (u64_mod - 1) in
            elim (Bool-cases (admits sum)) [
              | inr f ↦ rw (e, copy_chunks) (rw f refl)
              | inl f ↦ elim (Option-cases (write_all put (x ∷ bytes))) [
                | inl g ↦ rw (e, copy_chunks) (rw (f, g) refl)
                | inr (put', g) ↦
                    rw (e, copy_chunks)
                      (rw (f, g)
                        (copy_chunks-enough_fuel fuel more store put' (read_chunk body 8192).1 sum
                          (fewer body x bytes fuel e h) (fewer body x bytes more e k)))
              ]
            ]
      ]

  -- The bytes of a round, counted.
  pub counted :
      (body : Body) (x : ℕ) (bytes : List ℕ) (total : ℕ)
      → (read_chunk body 8192).0 ≡ some (x ∷ bytes)
      → total ≡ length (yielded body)
      → (total + length (x ∷ bytes) ≡ length (yielded (read_chunk body 8192).1))
        × (total + length (x ∷ bytes) ≤ length (whole body))
  counted body x bytes total e h =
      let y : length (yielded (read_chunk body 8192).1)
          ≡ length (yielded body) + length (x ∷ bytes) =
        ap length (read_more body x bytes e) ∙ length-append (yielded body) (x ∷ bytes) in
      let w : length (whole (read_chunk body 8192).1) ≡ length (whole body) =
        ap length (whole-read_chunk body 8192) in
      (omega (arith, y, h), omega (arith, y, h, w, length-yielded (read_chunk body 8192).1))

  module _ {Holds : S.Store → CacheKey → CachePolicy → Payload → Type 0}
      {accepted : Handle → List ℕ} {target : Handle → CacheKey × CachePolicy}
      {Gives : Body → Payload → Type 0} (laws : IsLawful S Holds accepted target Gives) where
    open laws use {write-handle}

    -- The handle is finalized with a whole body and its trailers, for what it was opened for.
    abbrev pub Commits :
        Store → CacheKey × CachePolicy → List ℕ × Option http.Headers → Bool × Store → Type 0
    Commits store place (bytes, trailers) out =
        (end : Handle) × (accepted end ≡ bytes)
        × (target end ≡ place)
        × (out ≡ finalize store end trailers)

    at_end :
        (store : Store) (put : Handle) (body : Body)
        → (read_chunk body 8192).0 ≡ some []
        → accepted put ≡ yielded body
        → Commits store
            (target put)
            (whole body, ends_with body)
            (finalize store put (body_trailers (read_chunk body 8192).1).0)
    at_end store put body e h =
        let finished : yielded (read_chunk body 8192).1 ≡ whole (read_chunk body 8192).1 =
          yielded-read_chunk body 8192
          ∙ rw e (append-nil (yielded body))
          ∙ read_chunk-end body 8192 (omega arith) e
          ∙ sym (whole-read_chunk body 8192) in
        (
          put,
          h ∙ read_chunk-end body 8192 (omega arith) e,
          refl,
          ap (finalize store put)
              (trailers-end (read_chunk body 8192).1 finished ∙ ends_with-read_chunk body 8192),
        )

    after_write :
        (put put' : Handle) (body : Body) (x : ℕ) (bytes : List ℕ)
        → (read_chunk body 8192).0 ≡ some (x ∷ bytes)
        → write_all put (x ∷ bytes) ≡ some put'
        → accepted put ≡ yielded body
        → accepted put' ≡ yielded (read_chunk body 8192).1
    after_write put put' body x bytes e g h =
        (write-handle put put' (x ∷ bytes) g).0
        ∙ ap (λ a. a ++ x ∷ bytes) h
        ∙ sym (read_more body x bytes e)

    keeps_Commits :
        (store : Store) (put put' : Handle) (body : Body) (x : ℕ) (bytes : List ℕ)
        (out : Bool × Store)
        → write_all put (x ∷ bytes) ≡ some put'
        → Commits store
            (target put')
            (whole (read_chunk body 8192).1, ends_with (read_chunk body 8192).1)
            out
        → Commits store (target put) (whole body, ends_with body) out
    keeps_Commits store put put' body x bytes out g (end, bytes_of, place, result) = (
      end,
      bytes_of ∙ whole-read_chunk body 8192,
      place ∙ (write-handle put put' (x ∷ bytes) g).1,
      result ∙ ap (λ t. finalize store end t) (ends_with-read_chunk body 8192),
    )

    -- Whatever fails on the way, the storage stays as it was or the handle is finalized with all bytes of
    -- the body, in their order, and its trailers: never with a part of them.
    pub copy_chunks-Commits :
        (fuel : ℕ) (store : Store) (put : Handle) (body : Body) (total : ℕ)
        → accepted put ≡ yielded body
        → ((copy_chunks S admits fuel store put body total).1 ≡ store)
          ⊎ Commits store
              (target put)
              (whole body, ends_with body)
              (copy_chunks S admits fuel store put body total)
    unfolding copy_chunks
    copy_chunks-Commits zero store put body total h = inl refl
    copy_chunks-Commits (suc fuel) store put body total h =
        elim (read_cases body (read_chunk body 8192).0 refl) [
          | broken _ e ↦ inl (rw (e, copy_chunks) refl)
          | ended _ e ↦ inr (rw (e, copy_chunks) (at_end store put body e h))
          | read_bytes _ x bytes e ↦
              let sum = min (total + length (x ∷ bytes)) (u64_mod - 1) in
              elim (Bool-cases (admits sum)) [
                | inr f ↦ inl (rw (e, copy_chunks) (rw f refl))
                | inl f ↦ elim (Option-cases (write_all put (x ∷ bytes))) [
                  | inl g ↦ inl (rw (e, copy_chunks) (rw (f, g) refl))
                  | inr (put', g) ↦
                      rw (e, copy_chunks)
                        (rw (f, g)
                          (elim (copy_chunks-Commits fuel store put' (read_chunk body 8192).1 sum
                            (after_write put put' body x bytes e g h)) [
                              | inl same ↦ inl same
                              | inr done ↦ inr (keeps_Commits store put put' body x bytes _ g done)
                            ]))
                ]
              ]
        ]

    -- Where no read and no write fails and the length of the body is admitted, the whole body is committed.
    pub copy_chunks-completes :
        (fuel : ℕ) (store : Store) (put : Handle) (body : Body) (total : ℕ)
        → ((b : Body) → (read_chunk b 8192).0 ≢ none)
        → ((w : Handle) (bytes : List ℕ) → write_all w bytes ≢ none)
        → ((n : ℕ) → n ≤ length (whole body) → admits n ≡ true)
        → length (whole body) < u64_mod
        → accepted put ≡ yielded body
        → total ≡ length (yielded body)
        → unread body < fuel
        → Commits store
            (target put)
            (whole body, ends_with body)
            (copy_chunks S admits fuel store put body total)
    unfolding copy_chunks
    copy_chunks-completes zero store put body total reads writes allowed small h n enough =
        absurd (omega (arith, enough))
    copy_chunks-completes (suc fuel) store put body total reads writes allowed small h n enough =
        elim (read_cases body (read_chunk body 8192).0 refl) [
          | broken _ e ↦ absurd (reads body e)
          | ended _ e ↦ rw (e, copy_chunks) (at_end store put body e h)
          | read_bytes _ x bytes e ↦
              let sum = min (total + length (x ∷ bytes)) (u64_mod - 1) in
              let (y, bound) = counted body x bytes total e n in
              let exact : sum ≡ length (yielded (read_chunk body 8192).1) =
                omega (arith, y, bound, small) in
              let w : length (whole (read_chunk body 8192).1) ≡ length (whole body) =
                ap length (whole-read_chunk body 8192) in
              elim (Option-cases (write_all put (x ∷ bytes))) [
                | inl g ↦ absurd (writes put (x ∷ bytes) g)
                | inr (put', g) ↦
                    rw (e, copy_chunks)
                      (rw (allowed sum (omega (arith, bound)), g)
                        (keeps_Commits store put put' body x bytes _ g (
                          copy_chunks-completes fuel store put' (read_chunk body 8192).1 sum reads
                            writes (λ m le. allowed m (omega (arith, le, w)))
                            (omega (arith, w, small)) (after_write put put' body x bytes e g h)
                            exact (fewer body x bytes fuel e enough))))
              ]
        ]
