-- ===== src/Fs/Refresh.antt =====
-- A new policy for an entry of the directory.
use trillium_cache.Prelude.{◌≡◌, inl, inr, ◌∙◌, true, some, [], ◌++◌, Bool-cases}
use mathlib.Core.List.{append_assoc}
use trillium_cache.Text.{Str, codes, to_string}
use trillium_cache.Http.{Http}
use trillium_cache.Policy.{CachePolicy}
use trillium_cache.Policy.Repr.{to_repr}
use trillium_cache.Storage.{Urls}
use trillium_cache.Tee.Streams.{Streams as TeeStreams}
use trillium_cache.Fs.Disk.{StoredMeta, FileSystem}
use trillium_cache.Fs.Names.{body-not_meta}
use trillium_cache.Fs.Commit.{entry_of, write_meta-others, write_meta-content, read_entry_lem}
use trillium_cache.Fs.{FsStore, meta_suffix, body_suffix, write_meta, refresh_fs, read_entry}

module _ ⦃http : Http⦄ ⦃urls : Urls⦄ ⦃streams : TeeStreams⦄ ⦃files : FileSystem⦄ where
  open files use {content, decode-encode}

  -- Whatever fails, a refresh leaves the body file of its entry as it was. Where it succeeds, a lookup
  -- reads the new policy from the metadata, with the trailers of the entry.
  pub refresh_fs-read_entry :
      (store : FsStore) (dir hash : Str) (meta : StoredMeta) (q : CachePolicy)
      → (content (refresh_fs store (entry_of dir hash meta) q).2.disk dir (hash ++ body_suffix)
          ≡ content store.disk dir (hash ++ body_suffix))
        × ((refresh_fs store (entry_of dir hash meta) q).0 ≡ true
            → read_entry
                (refresh_fs store (entry_of dir hash meta) q).2.disk
                dir
                (hash ++ meta_suffix)
              ≡ some (
                hash,
                entry_of dir hash (record { policy = to_repr q; trailers = meta.trailers }),
              ))
  unfolding refresh_fs
  refresh_fs-read_entry store dir hash meta q =
      let temporary = codes ".tmp." ++ to_string store.temp_counter in
      let tmp = (hash ++ meta_suffix) ++ temporary in
      let final = hash ++ meta_suffix in
      let new : StoredMeta = record { policy = to_repr q; trailers = meta.trailers } in
      let kept =
        write_meta-others store.disk dir tmp final (hash ++ body_suffix) new
          (λ e. body-not_meta hash [] temporary (e ∙ append_assoc hash meta_suffix temporary))
          (λ e. body-not_meta hash [] [] e) in
      elim (Bool-cases (write_meta store.disk dir tmp final new).0) [
        | inr e ↦ (rw (e, refresh_fs) kept, λ ok. absurd (cc (rw (e, refresh_fs) at ok)))
        | inl e ↦
            let (bytes, encoded, there) = write_meta-content store.disk dir tmp final new e in
            (
              rw (e, refresh_fs) kept,
              λ ok.
                  rw (e, refresh_fs)
                    (read_entry_lem (write_meta store.disk dir tmp final new).1 dir hash new bytes
                      there (decode-encode new bytes encoded)),
            )
      ]
