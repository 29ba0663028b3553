-- ===== src/Fs/Commit.antt =====
-- What a write leaves in the directory, where it succeeds and where it is torn.
use trillium_cache.Prelude.{
  ℕ, suc, ◌≡◌, ◌≢◌, inl, inr, refl, ap, ◌∙◌, true, false, Option, some, List, [], ◌∷◌, ◌++◌, length,
  length-append, arith, Any, Bool-cases, Option-cases,
}
use mathlib.Core.List.{append-nil}
use mathlib.Core.Path.{subst}
use trillium_cache.Text.{Str, codes, str_eq, to_string}
use trillium_cache.Text.Equality.{str_eq_iff}
use trillium_cache.Http.{Http}
use trillium_cache.Policy.{CachePolicy}
use trillium_cache.Policy.Repr.{to_repr, from_repr}
use trillium_cache.Storage.{Urls, CacheKey}
use trillium_cache.Tee.Streams.{Streams as TeeStreams}
use trillium_cache.Fs.Disk.{StoredMeta, FileSystem}
use trillium_cache.Fs.Names.{body-not_meta}
use trillium_cache.Fs.{
  meta_suffix, body_suffix, strip_suffix, FsStore, FsStoredEntry, FsPutHandle, key_hash,
  variant_hash, read_entry, read_entries, get_fs, handle_for, write_meta, commit,
}

longer : (c : ℕ) (h s : Str) → str_eq (c ∷ (h ++ s)) s ≡ false
longer c h s = elim (Bool-cases (str_eq (c ∷ (h ++ s)) s)) [
  | inl e ↦
      let same : suc (length (h ++ s)) ≡ length s = ap length ((str_eq_iff (c ∷ (h ++ s)) s).0 e) in
      absurd (omega (arith, same, length-append h s))
  | inr e ↦ e
]

strip_suffix-append : (h : Str) → strip_suffix meta_suffix (h ++ meta_suffix) ≡ some h
unfolding strip_suffix str_eq
strip_suffix-append [] = refl
strip_suffix-append (c ∷ h) = rw (longer c h meta_suffix, strip_suffix-append h) refl

module _ ⦃http : Http⦄ ⦃urls : Urls⦄ ⦃streams : TeeStreams⦄ ⦃files : FileSystem⦄ where
  open http use {Headers}
  open files use {
    Disk, names, content, write, rename, close, remove_file, Writer, accepted, place, Index,
    index_insert, index_touch, encode, decode, decode-encode, names-content, content-close,
    close-others, content-write, write-others, content-rename, rename-others, remove-others,
  }

  -- The other files of the directory stay, whatever fails.
  pub write_meta-others :
      (d : Disk) (dir tmp final m : Str) (meta : StoredMeta)
      → m ≢ tmp
      → m ≢ final
      → content (write_meta d dir tmp final meta).1 dir m ≡ content d dir m
  unfolding write_meta
  write_meta-others d dir tmp final m meta h k = elim (Option-cases (encode meta)) [
    | inl e ↦ rw (e, write_meta) refl
    | inr (bytes, e) ↦ elim (Bool-cases (write d dir tmp bytes).0) [
      | inr f ↦ rw (e, write_meta) (rw f (write-others d dir tmp m bytes h))
      | inl f ↦
          rw (e, write_meta)
            (rw f (
              rename-others (write d dir tmp bytes).1 dir tmp final m h k
              ∙ write-others d dir tmp m bytes h))
    ]
  ]

  pub write_meta-content :
      (d : Disk) (dir tmp final : Str) (meta : StoredMeta)
      → (write_meta d dir tmp final meta).0 ≡ true
      → (bytes : List ℕ) × (encode meta ≡ some bytes)
        × (content (write_meta d dir tmp final meta).1 dir final ≡ some bytes)
  unfolding write_meta
  write_meta-content d dir tmp final meta ok = elim (Option-cases (encode meta)) [
    | inl e ↦ absurd (cc (rw (e, write_meta) at ok))
    | inr (bytes, e) ↦ elim (Bool-cases (write d dir tmp bytes).0) [
      | inr f ↦ absurd (cc (rw f at (rw (e, write_meta) at ok)))
      | inl f ↦ (
        bytes,
        e,
        rw (e, write_meta)
            (rw f (
              content-rename (write d dir tmp bytes).1 dir tmp final
                (rw f at (rw (e, write_meta) at ok))
              ∙ content-write d dir tmp bytes f)),
      )
    ]
  ]

  pub closed_content :
      (d : Disk) (w : Writer) (dir n : Str)
      → place w ≡ (dir, n)
      → (close d w).0 ≡ true
      → content (close d w).1 dir n ≡ some (accepted w)
  closed_content d w dir n at_place ok =
      subst (λ x. content (close d w).1 x.0 x.1 ≡ some (accepted w)) at_place (content-close d w ok)

  pub closed_others :
      (d : Disk) (w : Writer) (dir n m : Str)
      → place w ≡ (dir, n)
      → m ≢ n
      → content (close d w).1 dir m ≡ content d dir m
  closed_others d w dir n m at_place h =
      subst (λ x. (m ≢ x.1) → content (close d w).1 x.0 m ≡ content d x.0 m) at_place
        (close-others d w m) h

  abbrev pub meta_of : FsPutHandle → Option Headers → StoredMeta
  meta_of h t = record { policy = to_repr h.policy; trailers = t }

  -- A commit that succeeds leaves the metadata and all bytes that the writer has accepted.
  pub commit-content :
      (d : Disk) (h : FsPutHandle) (t : Option Headers)
      → place h.writer ≡ (h.variant_id.key_hash, h.body_tmp)
      → h.body_final ≢ h.meta_tmp
      → h.body_final ≢ h.meta_final
      → (commit d h t).0 ≡ true
      → (bytes : List ℕ) × (encode (meta_of h t) ≡ some bytes)
        × (content (commit d h t).1 h.variant_id.key_hash h.meta_final ≡ some bytes)
        × (content (commit d h t).1 h.variant_id.key_hash h.body_final ≡ some (accepted h.writer))
  unfolding commit
  commit-content d h t at_place not_tmp not_meta ok =
      let dir = h.variant_id.key_hash in
      let closed = (close d h.writer).1 in
      elim (Bool-cases (close d h.writer).0) [
        | inr e ↦ absurd (cc (rw (e, commit) at ok))
        | inl e ↦ elim (Bool-cases (rename closed dir h.body_tmp h.body_final).0) [
          | inr f ↦ absurd (cc (rw f at (rw (e, commit) at ok)))
          | inl f ↦
              let renamed = (rename closed dir h.body_tmp h.body_final).1 in
              let (bytes, encoded, there) =
                write_meta-content renamed dir h.meta_tmp h.meta_final (meta_of h t)
                  (rw f at (rw (e, commit) at ok)) in
              (
                bytes,
                encoded,
                rw (e, commit) (rw f there),
                rw (e, commit)
                    (rw f (
                      write_meta-others renamed dir h.meta_tmp h.meta_final h.body_final
                        (meta_of h t) not_tmp not_meta
                      ∙ content-rename closed dir h.body_tmp h.body_final f
                      ∙ closed_content d h.writer dir h.body_tmp at_place e)),
              )
        ]
      ]

  -- A file that is listed and holds the metadata of an entry is found.
  read_entries-finds :
      (d : Disk) (index : Index) (dir n hash : Str) (e : FsStoredEntry) (ns : List Str)
      → Any (λ m. m ≡ n) ns
      → read_entry d dir n ≡ some (hash, e)
      → Any (λ x. x ≡ e) (read_entries d index dir ns).0
  unfolding read_entries
  read_entries-finds d index dir n hash e [] h f = elim h [ ]
  read_entries-finds d index dir n hash e (m ∷ ns) (inl same) f =
      let first : read_entry d dir m ≡ some (hash, e) = ap (read_entry d dir) same ∙ f in
      rw (first, read_entries) (inl refl)
  read_entries-finds d index dir n hash e (m ∷ ns) (inr h) f =
      elim (Option-cases (read_entry d dir m)) [
        | inl g ↦ rw (g, read_entries) (read_entries-finds d index dir n hash e ns h f)
        | inr (x, g) ↦
            rw (g, read_entries)
              (inr (
                read_entries-finds d
                  (index_touch index (record { key_hash = dir; variant_hash = x.0 })) dir n hash e
                  ns h f))
      ]

  -- The entry that a metadata file stands for.
  abbrev pub entry_of : Str → Str → StoredMeta → FsStoredEntry
  entry_of dir hash meta = record {
    dir = dir;
    meta_name = hash ++ meta_suffix;
    body_name = hash ++ body_suffix;
    policy = from_repr meta.policy;
    trailers = meta.trailers;
  }

  pub read_entry_lem :
      (d : Disk) (dir hash : Str) (meta : StoredMeta) (bytes : List ℕ)
      → content d dir (hash ++ meta_suffix) ≡ some bytes
      → decode bytes ≡ some meta
      → read_entry d dir (hash ++ meta_suffix) ≡ some (hash, entry_of dir hash meta)
  unfolding read_entry
  read_entry_lem d dir hash meta bytes e f = rw (strip_suffix-append hash, e, f) refl

  -- The names of a new handle differ.
  pub not_meta_tmp :
      (k : CacheKey) (p : CachePolicy) (n : ℕ) (w : Writer)
      → (handle_for k p n w).body_final ≢ (handle_for k p n w).meta_tmp
  unfolding handle_for
  not_meta_tmp k p n w e =
      body-not_meta (variant_hash p) [] (codes ".tmp." ++ to_string n) (rw append-nil e)

  pub not_meta_final :
      (k : CacheKey) (p : CachePolicy) (n : ℕ) (w : Writer)
      → (handle_for k p n w).body_final ≢ (handle_for k p n w).meta_final
  unfolding handle_for
  not_meta_final k p n w e = body-not_meta (variant_hash p) [] [] e

  pub found :
      (store : FsStore) (k : CacheKey) (hash : Str) (meta : StoredMeta) (bytes : List ℕ)
      (ns : List Str)
      → names store.disk (key_hash k) ≡ some ns
      → content store.disk (key_hash k) (hash ++ meta_suffix) ≡ some bytes
      → decode bytes ≡ some meta
      → Any (λ e. e ≡ entry_of (key_hash k) hash meta) (get_fs store k).0
  unfolding get_fs
  found store k hash meta bytes ns listed there decoded =
      rw (listed, get_fs)
        (read_entries-finds store.disk store.index (key_hash k) (hash ++ meta_suffix) hash
          (entry_of (key_hash k) hash meta) ns
          (names-content store.disk (key_hash k) (hash ++ meta_suffix) ns bytes listed there)
          (read_entry_lem store.disk (key_hash k) hash meta bytes there decoded))
