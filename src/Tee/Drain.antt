-- ===== src/Tee/Drain.antt =====
-- The loop that writes the pending bytes.
use trillium_cache.Prelude.{
  ℕ, zero, suc, ◌<◌, ◌≡◌, ◌⊎◌, inl, inr, refl, sym, ap, ◌∙◌, false, List, [], ◌∷◌, ◌++◌, arith,
  length, ◌==◌, Bool-cases,
}
use mathlib.Core.List.{append-nil, append_assoc}
use trillium_cache.Http.{Http}
use trillium_cache.Memory.{take, drop}
use trillium_cache.Memory.Replay.{length-drop}
use trillium_cache.Tee.Streams.{Poll, pending, ready, failed, Streams as TeeStreams, taken}
use trillium_cache.Tee.{Drained, blocked, drained, dropped, drain}

module _ {A : Type 0} where
  pub take-drop : (n : ℕ) (xs : List A) → take n xs ++ drop n xs ≡ xs
  take-drop n [] = refl
  take-drop zero (x ∷ xs) = refl
  take-drop (suc n) (x ∷ xs) = ap (λ r. x ∷ r) (take-drop n xs)

module _ ⦃http : Http⦄ ⦃streams : TeeStreams⦄ where
  open http use {Headers}
  open streams use {
    Body, read, body_trailers, Writer, poll_write, Finalize, finalize, poll, accepted,
    accepted-poll_write, whole, yielded, whole-read, yielded-read, whole-trailers, yielded-trailers,
    read-end,
  }

  -- The bytes `total` are accounted for.
  abbrev pub Accounts : List ℕ → Drained → Type 0
  Accounts total (blocked w bytes) = accepted w ++ bytes ≡ total
  Accounts total (drained w) = accepted w ≡ total
  Accounts total dropped = Unit

  write_lem :
      (w : Writer) (buf : List ℕ) (r : Poll ℕ)
      → (poll_write w buf).0 ≡ r
      → accepted (poll_write w buf).1 ≡ accepted w ++ taken r buf
  write_lem w buf r e = accepted-poll_write w buf ∙ rw e refl

  pub written_lem :
      (w : Writer) (buf : List ℕ) (n : ℕ)
      → (poll_write w buf).0 ≡ ready n
      → accepted (poll_write w buf).1 ++ drop n buf ≡ accepted w ++ buf
  written_lem w buf n e =
      ap (λ a. a ++ drop n buf) (write_lem w buf (ready n) e)
      ∙ append_assoc (accepted w) (take n buf) (drop n buf)
      ∙ ap (λ r. accepted w ++ r) (take-drop n buf)

  pub blocked_lem :
      (w : Writer) (buf : List ℕ)
      → (poll_write w buf).0 ≡ pending
      → accepted (poll_write w buf).1 ++ buf ≡ accepted w ++ buf
  blocked_lem w buf e = ap (λ a. a ++ buf) (write_lem w buf pending e ∙ append-nil (accepted w))

  pub Poll-cases :
      {A : Type 0} (r : Poll A) → (r ≡ pending) ⊎ (r ≡ failed) ⊎ ((a : A) × (r ≡ ready a))
  Poll-cases pending = inl refl
  Poll-cases failed = inr (inl refl)
  Poll-cases (ready a) = inr (inr (a, refl))

  pub drain_lem :
      (fuel : ℕ) (w : Writer) (bytes : List ℕ) → Accounts (accepted w ++ bytes) (drain fuel w bytes)
  unfolding drain
  drain_lem zero w bytes = tt
  drain_lem (suc fuel) w [] = sym (append-nil (accepted w))
  drain_lem (suc fuel) w (b ∷ bytes) = elim (Poll-cases (poll_write w (b ∷ bytes)).0) [
    | inl e ↦ rw (e, drain) (blocked_lem w (b ∷ bytes) e)
    | inr (inl e) ↦ rw (e, drain) tt
    | inr (inr (n, e)) ↦ elim (Bool-cases (n == 0)) [
      | inl z ↦ rw (e, drain) (rw z tt)
      | inr z ↦
          rw (e, drain)
            (rw z (
              rw (← written_lem w (b ∷ bytes) n e)
                (drain_lem fuel (poll_write w (b ∷ bytes)).1 (drop n (b ∷ bytes)))))
    ]
  ]

  shorter :
      (b : ℕ) (bytes : List ℕ) (n fuel : ℕ)
      → (n == 0) ≡ false
      → length (b ∷ bytes) < suc fuel
      → length (drop n (b ∷ bytes)) < fuel
  shorter b bytes n fuel z h = ground (arith, length-drop n (b ∷ bytes))

  -- The loop that writes the pending bytes ends before its fuel does: any two amounts that are larger
  -- than the number of bytes give the same.
  pub drain-enough_fuel :
      (fuel more : ℕ) (w : Writer) (bytes : List ℕ)
      → length bytes < fuel
      → length bytes < more
      → drain fuel w bytes ≡ drain more w bytes
  unfolding drain
  drain-enough_fuel zero more w bytes h k = absurd (omega (arith, h))
  drain-enough_fuel (suc fuel) zero w bytes h k = absurd (omega (arith, k))
  drain-enough_fuel (suc fuel) (suc more) w [] h k = refl
  drain-enough_fuel (suc fuel) (suc more) w (b ∷ bytes) h k =
      elim (Poll-cases (poll_write w (b ∷ bytes)).0) [
        | inl e ↦ rw (e, drain) refl
        | inr (inl e) ↦ rw (e, drain) refl
        | inr (inr (n, e)) ↦ elim (Bool-cases (n == 0)) [
          | inl z ↦ rw (e, drain) (rw z refl)
          | inr z ↦
              rw (e, drain)
                (rw z (
                  drain-enough_fuel fuel more (poll_write w (b ∷ bytes)).1 (drop n (b ∷ bytes))
                    (shorter b bytes n fuel z h) (shorter b bytes n more z k)))
        ]
      ]
