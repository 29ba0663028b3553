-- ===== src/Fs/Scan.antt =====
-- src/fs.rs: the construction of the storage, which scans the directory for what it holds already.
use trillium_cache.Prelude.{ℕ, ◌*◌, none, some, List, [], ◌∷◌, ◌++◌}
use trillium_cache.Text.{Str}
use trillium_cache.Time.{Duration}
use trillium_cache.Http.{Http}
use trillium_cache.Storage.{Urls}
use trillium_cache.Tee.Streams.{Streams as TeeStreams}
use trillium_cache.Fs.Disk.{FileSystem}
use trillium_cache.Fs.{meta_suffix, body_suffix, strip_suffix, FsStore, evict}

-- `DEFAULT_MAX_CAPACITY_BYTES`
abbrev pub default_max_capacity_bytes : ℕ
default_max_capacity_bytes = 1024 * 1024 * 1024

module _ ⦃http : Http⦄ ⦃urls : Urls⦄ ⦃streams : TeeStreams⦄ ⦃files : FileSystem⦄ where
  open files use {
    Disk, names, content, dirs, file_len, remove_file, remove-others, Index, build_index,
    index_insert, run_pending,
  }

  -- one file of a scan: a variant that is committed counts with the length of its body
  unfoldable pub index_file : Disk → Index → Str → Str → Disk × Index
  index_file disk index dir name = elim (strip_suffix meta_suffix name) [
    | none ↦ (disk, index)
    | some hash ↦ elim (file_len disk dir (hash ++ body_suffix)) [
      | none ↦ (disk, index)
      | some len ↦
          let (evicted, index) =
            index_insert index (record { key_hash = dir; variant_hash = hash }) len in
          (evict disk evicted, index)
    ]
  ]

  unfoldable pub scan_dir : Disk → Index → Str → List Str → Disk × Index
  scan_dir disk index dir [] = (disk, index)
  scan_dir disk index dir (name ∷ rest) =
      let (disk, index) = index_file disk index dir name in scan_dir disk index dir rest

  unfoldable pub scan_dirs : Disk → Index → List Str → Disk × Index
  scan_dirs disk index [] = (disk, index)
  scan_dirs disk index (dir ∷ rest) = elim (names disk dir) [
    | none ↦ scan_dirs disk index rest
    | some found ↦ let (disk, index) = scan_dir disk index dir found in scan_dirs disk index rest
  ]

  -- `scan_root`
  unfoldable pub scan_root : Disk → Index → Disk × Index
  scan_root disk index = elim (dirs disk) [
    | none ↦ (disk, index)
    | some found ↦
        let (disk, index) = scan_dirs disk index found in
        let (evicted, index) = run_pending index in (evict disk evicted, index)
  ]

  -- `rebuild`
  unfoldable pub rebuild : FsStore → FsStore
  rebuild store =
      let (disk, index) =
        scan_root store.disk
          (build_index store.max_capacity_bytes store.time_to_idle store.time_to_live) in
      record store { disk = disk; index = index }

  -- `FileSystemStorage::new`
  unfoldable pub new_fs : Disk → ℕ → FsStore
  new_fs disk counter =
      let (disk, index) =
        scan_root disk (build_index (some default_max_capacity_bytes) none none) in
      record {
        disk = disk;
        index = index;
        temp_counter = counter;
        max_capacity_bytes = some default_max_capacity_bytes;
        time_to_idle = none;
        time_to_live = none;
      }

  unfoldable pub with_max_capacity_bytes : FsStore → ℕ → FsStore
  with_max_capacity_bytes store bytes = rebuild (record store { max_capacity_bytes = some bytes })

  unfoldable pub unbounded : FsStore → FsStore
  unbounded store = rebuild (record store { max_capacity_bytes = none })

  unfoldable pub with_time_to_idle : FsStore → Duration → FsStore
  with_time_to_idle store duration = rebuild (record store { time_to_idle = some duration })

  unfoldable pub with_time_to_live : FsStore → Duration → FsStore
  with_time_to_live store duration = rebuild (record store { time_to_live = some duration })

  -- `run_pending_tasks`
  unfoldable pub run_pending_tasks : FsStore → FsStore
  run_pending_tasks store =
      let (evicted, index) = run_pending store.index in
      record store { disk = evict store.disk evicted; index = index }
