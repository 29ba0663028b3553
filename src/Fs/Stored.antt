-- ===== src/Fs/Stored.antt =====
-- What a lookup finds behind a write, and behind one that is torn.
use trillium_cache.Prelude.{
  ℕ, ◌≡◌, ◌≢◌, inl, inr, refl, sym, ap, ◌∙◌, true, false, Option, some, List, [], ◌∷◌, ◌++◌, Any,
  Bool-cases,
}
use mathlib.Core.Path.{subst}
use trillium_cache.Text.{Str, codes, to_string}
use trillium_cache.Http.{Http}
use trillium_cache.Policy.{CachePolicy}
use trillium_cache.Policy.Repr.{to_repr, IsDerived, from_repr-to_repr}
use trillium_cache.Storage.{Urls, CacheKey}
use trillium_cache.Tee.Streams.{Streams as TeeStreams}
use trillium_cache.Fs.Disk.{StoredMeta, FileSystem}
use trillium_cache.Fs.Names.{body-not_meta, body-not_temporary, meta-not_temporary}
use trillium_cache.Fs.Commit.{
  meta_of, commit-content, entry_of, found, not_meta_tmp, not_meta_final, closed_content,
  closed_others, read_entry_lem,
}
use trillium_cache.Fs.{
  FsStore, FsStoredEntry, FsPutHandle, key_hash, variant_hash, get_fs, handle_for, write_meta,
  commit, evict, drop_handle, finalize_fs, read_entry, body_suffix, meta_suffix,
}

module _ {A : Type 0} where
  Any-mono : (P Q : A → Type 0) (xs : List A) → ((x : A) → P x → Q x) → Any P xs → Any Q xs
  Any-mono P Q [] f h = elim h [ ]
  Any-mono P Q (x ∷ xs) f (inl p) = inl (f x p)
  Any-mono P Q (x ∷ xs) f (inr h) = inr (Any-mono P Q xs f h)

module _ ⦃http : Http⦄ ⦃urls : Urls⦄ ⦃streams : TeeStreams⦄ ⦃files : FileSystem⦄ where
  open http use {Headers}
  open files use {
    Disk, names, content, write, rename, close, Writer, accepted, place, index_insert, encode,
    decode, decode-encode, remove_file, write-others, content-rename, rename-others, remove-others,
  }

  -- The handle of `put` behind writes of so many bytes in all.
  abbrev pub written_handle : CacheKey → CachePolicy → ℕ → Writer → ℕ → FsPutHandle
  written_handle k p n w len = record (handle_for k p n w) { written = len }

  committed_store :
      (store : FsStore) (h : FsPutHandle) (t : Option Headers)
      → (finalize_fs store h t).0 ≡ true
      → (index_insert store.index h.variant_id h.written).0 ≡ []
      → ((commit store.disk h t).0 ≡ true)
        × ((finalize_fs store h t).1 ≡ record store {
          disk = (commit store.disk h t).1;
          index = (index_insert store.index h.variant_id h.written).1;
        })
  unfolding finalize_fs evict
  committed_store store h t ok kept = elim (Bool-cases (commit store.disk h t).0) [
    | inr e ↦ absurd (cc (rw (e, finalize_fs) at ok))
    | inl e ↦ (e, rw (e, finalize_fs) (rw kept refl))
  ]

  -- An entry with the policy, the trailers and the bytes, all in the files of the directory.
  abbrev pub IsStored : FsStore → CachePolicy → Option Headers → List ℕ → FsStoredEntry → Type 0
  IsStored store p t bytes e =
      (e.policy ≡ p) × (e.trailers ≡ t) × (content store.disk e.dir e.body_name ≡ some bytes)

  -- Behind a `finalize` that succeeds, with nothing evicted, `get` finds an entry with the policy of the
  -- handle, its trailers and a body file of all bytes that were written, if it can list the directory.
  pub finalize_fs-IsStored :
      (store : FsStore) (k : CacheKey) (p : CachePolicy) (n len : ℕ) (w : Writer)
      (t : Option Headers) (ns : List Str)
      → IsDerived p
      → place w ≡ (key_hash k, (handle_for k p n w).body_tmp)
      → (finalize_fs store (written_handle k p n w len) t).0 ≡ true
      → (index_insert store.index (handle_for k p n w).variant_id len).0 ≡ []
      → names (finalize_fs store (written_handle k p n w len) t).1.disk (key_hash k) ≡ some ns
      → Any
          (IsStored (finalize_fs store (written_handle k p n w len) t).1 p t (accepted w))
          (get_fs (finalize_fs store (written_handle k p n w len) t).1 k).0
  unfolding handle_for
  finalize_fs-IsStored store k p n len w t ns derived at_place ok kept listed =
      let h = written_handle k p n w len in
      let (done, after) = committed_store store h t ok kept in
      let (bytes, encoded, meta_there, body_there) =
        commit-content store.disk h t at_place (not_meta_tmp k p n w) (not_meta_final k p n w)
          done in
      let dir = key_hash k in
      let store' = record store {
        disk = (commit store.disk h t).1;
        index = (index_insert store.index h.variant_id h.written).1;
      } in
      let stored : IsStored store' p t (accepted w) (entry_of dir (variant_hash p) (meta_of h t)) =
        (from_repr-to_repr p derived, refl, body_there) in
      subst (λ s. Any (IsStored s p t (accepted w)) (get_fs s k).0) (sym after)
        (Any-mono _ (IsStored store' p t (accepted w)) (get_fs store' k).0
          (λ e same. subst (IsStored store' p t (accepted w)) (sym same) stored)
          (found store' k (variant_hash p) (meta_of h t) bytes ns
            (subst (λ s. names s.disk dir ≡ some ns) after listed) meta_there
            (decode-encode (meta_of h t) bytes encoded)))

  -- Where the disk is full between the two renames of `finalize`, the write fails and a lookup finds the
  -- earlier metadata of the variant, policy and trailers, with the body of the new response.
  pub finalize_fs-torn :
      (store : FsStore) (k : CacheKey) (p : CachePolicy) (n len : ℕ) (w : Writer)
      (t : Option Headers) (bytes old_bytes : List ℕ) (old : StoredMeta)
      → place w ≡ (key_hash k, (handle_for k p n w).body_tmp)
      → (close store.disk w).0 ≡ true
      → (rename
          (close store.disk w).1
          (key_hash k)
          (handle_for k p n w).body_tmp
          (handle_for k p n w).body_final).0
        ≡ true
      → encode (record { policy = to_repr p; trailers = t }) ≡ some bytes
      → (write
          (rename
            (close store.disk w).1
            (key_hash k)
            (handle_for k p n w).body_tmp
            (handle_for k p n w).body_final).1
          (key_hash k)
          (handle_for k p n w).meta_tmp
          bytes).0
        ≡ false
      → content store.disk (key_hash k) (handle_for k p n w).meta_final ≡ some old_bytes
      → decode old_bytes ≡ some old
      → ((finalize_fs store (written_handle k p n w len) t).0 ≡ false)
        × (read_entry
              (finalize_fs store (written_handle k p n w len) t).1.disk
              (key_hash k)
              (handle_for k p n w).meta_final
            ≡ some (variant_hash p, entry_of (key_hash k) (variant_hash p) old))
        × (content
              (finalize_fs store (written_handle k p n w len) t).1.disk
              (key_hash k)
              (handle_for k p n w).body_final
            ≡ some (accepted w))
  unfolding handle_for finalize_fs commit write_meta drop_handle
  finalize_fs-torn store k p n len w t bytes old_bytes old at_place closes renames encoded full
        there decoded =
      let dir = key_hash k in
      let hash = variant_hash p in
      let temporary = codes ".tmp." ++ to_string n in
      let body_tmp = hash ++ (body_suffix ++ temporary) in
      let body_final = hash ++ body_suffix in
      let meta_tmp = hash ++ (meta_suffix ++ temporary) in
      let meta_final = hash ++ meta_suffix in
      let d1 = (close store.disk w).1 in
      let d2 = (rename d1 dir body_tmp body_final).1 in
      let d3 = (write d2 dir meta_tmp bytes).1 in
      let meta_body : (s u : Str) → hash ++ (meta_suffix ++ u) ≢ hash ++ (body_suffix ++ s) =
        λ s u e. body-not_meta hash s u (sym e) in
      let body_same : content (remove_file d3 dir body_tmp) dir body_final ≡ some (accepted w) =
        remove-others d3 dir body_tmp body_final (λ e. body-not_temporary hash _ _ e)
        ∙ write-others d2 dir meta_tmp body_final bytes (not_meta_tmp k p n w)
        ∙ content-rename d1 dir body_tmp body_final renames
        ∙ closed_content store.disk w dir body_tmp at_place closes in
      let meta_same : content (remove_file d3 dir body_tmp) dir meta_final ≡ some old_bytes =
        remove-others d3 dir body_tmp meta_final (meta_body temporary [])
        ∙ write-others d2 dir meta_tmp meta_final bytes (meta-not_temporary hash _ _)
        ∙ rename-others d1 dir body_tmp body_final meta_final (meta_body temporary [])
            (meta_body [] [])
        ∙ closed_others store.disk w dir body_tmp meta_final at_place (meta_body temporary [])
        ∙ there in
      let stopped : commit store.disk (written_handle k p n w len) t ≡ (false, d3) =
        rw (closes, commit)
          (rw (renames, commit) (rw (encoded, commit, write_meta) (rw full refl))) in
      let torn : finalize_fs store (written_handle k p n w len) t
          ≡ (false, record store { disk = remove_file d3 dir body_tmp }) =
        rw (stopped, finalize_fs)
          (λ i. (
            false,
            record store { disk = drop_handle (stopped i).1 (written_handle k p n w len) },
          )) in
      (
        ap (λ r. r.0) torn,
        ap (λ r. read_entry r.1.disk dir meta_final) torn
            ∙ read_entry_lem (remove_file d3 dir body_tmp) dir hash old old_bytes meta_same decoded,
        ap (λ r. content r.1.disk dir body_final) torn ∙ body_same,
      )
