-- ===== src/Fs.antt =====
-- src/fs.rs: the storage in a directory. Each response is a `.meta` file with its policy and trailers and a
-- `.body` file. Paths are relative to the root: a directory for the key, and a name in it.
pub mod Disk
pub mod Names
pub mod Commit
pub mod Stored
pub mod Refresh
pub mod Scan
use trillium_cache.Prelude.{
  ℕ, ◌+◌, ◌*◌, ◌%◌, ◌^◌, Bool, true, false, Option, none, some, List, [], ◌∷◌, ◌++◌, length, map,
  and_then, if◌then◌else◌,
}
use trillium_cache.Text.{Str, codes, str_eq, to_string, u64_mod}
use trillium_cache.Time.{Duration}
use trillium_cache.Http.{Http}
use trillium_cache.Policy.{CachePolicy, VarySnapshot}
use trillium_cache.Policy.Repr.{to_repr, from_repr}
use trillium_cache.Storage.{Urls, CacheKey}
use trillium_cache.Tee.Streams.{Poll, pending, ready, failed, Streams as TeeStreams}
use trillium_cache.Fs.Disk.{StoredMeta, VariantId, FileSystem}

-- `META_SUFFIX` and `BODY_SUFFIX`
abbrev pub meta_suffix : Str
meta_suffix = codes ".meta"

abbrev pub body_suffix : Str
body_suffix = codes ".body"

-- `str::strip_suffix`
unfoldable pub strip_suffix : Str → Str → Option Str
strip_suffix suffix [] = if str_eq [] suffix then some [] else none
strip_suffix suffix (c ∷ s) =
    let rest = strip_suffix suffix s in
    if str_eq (c ∷ s) suffix then some [] else and_then rest (λ r. some (c ∷ r))

module _ ⦃http : Http⦄ ⦃urls : Urls⦄ ⦃streams : TeeStreams⦄ ⦃files : FileSystem⦄ where
  open http use {Headers}
  open streams use {Body}
  open files use {
    Disk, names, content, create_dir_all, create, write, rename, remove_file, remove_dir_all,
    file_len, Writer, poll_write, close, Reader, open_file, body_of_file, Index, index_insert,
    index_touch, index_invalidate, hash_hex, utf8, key_text, encode, decode,
  }

  -- `FileSystemStorage`, with the counter that `TEMP_COUNTER` is
  pub record FsStore : Type 0 where
    pub disk : Disk
    pub index : Index
    pub temp_counter : ℕ
    pub max_capacity_bytes : Option ℕ
    pub time_to_idle : Option Duration
    pub time_to_live : Option Duration

  -- `key_hash`
  unfoldable pub key_hash : CacheKey → Str
  key_hash key = hash_hex (utf8 (key_text key))

  -- the bytes that `variant_hash` feeds to the hasher
  unfoldable pub variant_input : VarySnapshot → List ℕ
  variant_input [] = []
  variant_input ((name, some value) ∷ rest) =
      utf8 name ++ (0 ∷ 1 ∷ (utf8 value ++ (0 ∷ variant_input rest)))
  variant_input ((name, none) ∷ rest) = utf8 name ++ (0 ∷ 0 ∷ 0 ∷ variant_input rest)

  -- `variant_hash`
  unfoldable pub variant_hash : CachePolicy → Str
  variant_hash policy = hash_hex (variant_input policy.vary_snapshot)

  -- `FsStoredEntry`
  pub record FsStoredEntry : Type 0 where
    pub dir : Str
    pub meta_name : Str
    pub body_name : Str
    pub policy : CachePolicy
    pub trailers : Option Headers

  -- `FsPutHandle`
  pub record FsPutHandle : Type 0 where
    pub writer : Writer
    pub body_tmp : Str
    pub body_final : Str
    pub meta_tmp : Str
    pub meta_final : Str
    pub policy : CachePolicy
    pub variant_id : VariantId
    pub written : ℕ

  -- one file of the loop of `get`
  unfoldable pub read_entry : Disk → Str → Str → Option (Str × FsStoredEntry)
  read_entry disk dir name = and_then (strip_suffix meta_suffix name) (λ hash.
      and_then (content disk dir name) (λ bytes. and_then (decode bytes) (λ meta. some (
        hash,
        record {
          dir = dir;
          meta_name = name;
          body_name = hash ++ body_suffix;
          policy = from_repr meta.policy;
          trailers = meta.trailers;
        },
      ))))

  -- the loop of `get`
  unfoldable pub read_entries : Disk → Index → Str → List Str → List FsStoredEntry × Index
  read_entries disk index dir [] = ([], index)
  read_entries disk index dir (name ∷ rest) = elim (read_entry disk dir name) [
    | none ↦ read_entries disk index dir rest
    | some (hash, entry) ↦
        let (entries, index) =
          read_entries disk (index_touch index (record { key_hash = dir; variant_hash = hash })) dir
            rest in
        (entry ∷ entries, index)
  ]

  -- `CacheStorage::get`
  unfoldable pub get_fs : FsStore → CacheKey → List FsStoredEntry × FsStore
  get_fs store key = elim (names store.disk (key_hash key)) [
    | none ↦ ([], store)
    | some found ↦
        let (entries, index) = read_entries store.disk store.index (key_hash key) found in
        (entries, record store { index = index })
  ]

  -- the handle that `put` returns
  unfoldable pub handle_for : CacheKey → CachePolicy → ℕ → Writer → FsPutHandle
  handle_for key policy n writer =
      let hash = variant_hash policy in
      record {
        writer = writer;
        body_tmp = hash ++ (body_suffix ++ (codes ".tmp." ++ to_string n));
        body_final = hash ++ body_suffix;
        meta_tmp = hash ++ (meta_suffix ++ (codes ".tmp." ++ to_string n));
        meta_final = hash ++ meta_suffix;
        policy = policy;
        variant_id = record { key_hash = key_hash key; variant_hash = hash };
        written = 0;
      }

  -- `CacheStorage::put`
  unfoldable pub put_fs : FsStore → CacheKey → CachePolicy → Option FsPutHandle × FsStore
  put_fs store key policy =
      let dir = key_hash key in
      let (made, disk) = create_dir_all store.disk dir in
      elim made [
        | false ↦ (none, record store { disk = disk })
        | true ↦
            let n = store.temp_counter in
            let tmp = variant_hash policy ++ (body_suffix ++ (codes ".tmp." ++ to_string n)) in
            let (created, disk) = create disk dir tmp in
            let store = record store { disk = disk; temp_counter = (n + 1) % u64_mod } in
            elim created [
              | none ↦ (none, store)
              | some writer ↦ (some (handle_for key policy n writer), store)
            ]
      ]

  -- the names of the variants in a directory, taken out of the index
  unfoldable pub prune_index : Index → Str → List Str → Index
  prune_index index dir [] = index
  prune_index index dir (name ∷ rest) = elim (strip_suffix meta_suffix name) [
    | none ↦ prune_index index dir rest
    | some hash ↦
        prune_index (index_invalidate index (record { key_hash = dir; variant_hash = hash })) dir
          rest
  ]

  -- `CacheStorage::invalidate`
  unfoldable pub invalidate_fs : FsStore → CacheKey → FsStore
  invalidate_fs store key =
      let dir = key_hash key in
      let index : Index = elim (names store.disk dir) [
        | none ↦ store.index
        | some found ↦ prune_index store.index dir found
      ] in
      record store { disk = remove_dir_all store.disk dir; index = index }

  -- `AsyncWrite::poll_write`
  unfoldable pub write_fs : FsPutHandle → List ℕ → Poll ℕ × FsPutHandle
  write_fs handle buf =
      let (result, writer) = poll_write handle.writer buf in
      let handle = record handle { writer = writer } in
      elim result [
        | pending ↦ (pending, handle)
        | failed ↦ (failed, handle)
        | ready n ↦ (ready n, record handle { written = (handle.written + n) % u64_mod })
      ]

  -- a metadata file, written to a temporary one and renamed
  unfoldable pub write_meta : Disk → Str → Str → Str → StoredMeta → Bool × Disk
  write_meta disk dir tmp final meta = elim (encode meta) [
    | none ↦ (false, disk)
    | some bytes ↦
        let (wrote, disk) = write disk dir tmp bytes in
        elim wrote [ false ↦ (false, disk) | true ↦ rename disk dir tmp final ]
  ]

  -- the commit of `finalize`, up to the index
  unfoldable pub commit : Disk → FsPutHandle → Option Headers → Bool × Disk
  commit disk handle trailers =
      let dir = handle.variant_id.key_hash in
      let (closed, disk) = close disk handle.writer in
      elim closed [
        | false ↦ (false, disk)
        | true ↦
            let (renamed, disk) = rename disk dir handle.body_tmp handle.body_final in
            elim renamed [
              | false ↦ (false, disk)
              | true ↦
                  write_meta disk dir handle.meta_tmp handle.meta_final
                    (record { policy = to_repr handle.policy; trailers = trailers })
            ]
      ]

  -- the listener of `build_index`, for the variants that the index evicts
  unfoldable pub evict : Disk → List VariantId → Disk
  evict disk [] = disk
  evict disk (id ∷ ids) =
      evict
        (remove_file (remove_file disk id.key_hash (id.variant_hash ++ meta_suffix)) id.key_hash
          (id.variant_hash ++ body_suffix))
        ids

  -- `Drop for FsPutHandle`, where it has not been committed
  unfoldable pub drop_handle : Disk → FsPutHandle → Disk
  drop_handle disk handle = remove_file disk handle.variant_id.key_hash handle.body_tmp

  -- `PutHandle::finalize`
  unfoldable pub finalize_fs : FsStore → FsPutHandle → Option Headers → Bool × FsStore
  finalize_fs store handle trailers =
      let (committed, disk) = commit store.disk handle trailers in
      elim committed [
        | false ↦ (false, record store { disk = drop_handle disk handle })
        | true ↦
            let (evicted, index) = index_insert store.index handle.variant_id handle.written in
            (true, record store { disk = evict disk evicted; index = index })
      ]

  -- `StoredEntry::refresh_policy`
  unfoldable pub refresh_fs : FsStore → FsStoredEntry → CachePolicy → Bool × FsStoredEntry × FsStore
  refresh_fs store entry new_policy =
      let n = store.temp_counter in
      let tmp = entry.meta_name ++ (codes ".tmp." ++ to_string n) in
      let (ok, disk) =
        write_meta store.disk entry.dir tmp entry.meta_name
          (record { policy = to_repr new_policy; trailers = entry.trailers }) in
      let store = record store { disk = disk; temp_counter = (n + 1) % u64_mod } in
      elim ok [
        | false ↦ (false, entry, store)
        | true ↦ (true, record entry { policy = new_policy }, store)
      ]

  -- `StoredEntry::open`
  unfoldable pub open_fs : FsStore → FsStoredEntry → Option Body
  open_fs store entry = and_then (file_len store.disk entry.dir entry.body_name) (λ len.
      and_then (open_file store.disk entry.dir entry.body_name)
        (λ reader. some (body_of_file reader entry.trailers len)))
