-- ===== src/Fs/Disk.antt =====
-- What the storage in a directory uses of other code: the files of src/fs_shims.rs, which are those of
-- tokio, async-std or async-fs, the capacity index of moka, SHA-256, and the encoding of rkyv. An
-- operation that gives `none` or `false` has failed.
use trillium_cache.Prelude.{ℕ, ◌≡◌, ◌≢◌, Bool, true, Option, some, List, Any, All}
use trillium_cache.Text.{Str}
use trillium_cache.Time.{Duration}
use trillium_cache.Http.{Http}
use trillium_cache.Policy.Repr.{PolicyRepr}
use trillium_cache.Storage.{Urls, CacheKey}
use trillium_cache.Tee.Streams.{Poll, Streams as TeeStreams}

-- `VariantId`
pub record VariantId : Type 0 where
  pub key_hash : Str
  pub variant_hash : Str

module _ ⦃http : Http⦄ where
  -- `StoredMeta`
  pub record StoredMeta : Type 0 where
    pub policy : PolicyRepr
    pub trailers : Option http.Headers

pub record FileSystem ⦃http : Http⦄ ⦃urls : Urls⦄ ⦃streams : TeeStreams⦄ : Type 1 where
  pub Disk : Type 0
  -- the names in a directory, and what a file holds
  pub names : Disk → Str → Option (List Str)
  pub content : Disk → Str → Str → Option (List ℕ)
  pub file_len : Disk → Str → Str → Option ℕ
  pub create_dir_all : Disk → Str → Bool × Disk
  pub write : Disk → Str → Str → List ℕ → Bool × Disk
  pub rename : Disk → Str → Str → Str → Bool × Disk
  pub remove_file : Disk → Str → Str → Disk
  pub remove_dir_all : Disk → Str → Disk
  -- `fs_shims::Writer`: where it writes, and what it has accepted
  pub Writer : Type 0
  pub create : Disk → Str → Str → Option Writer × Disk
  pub poll_write : Writer → List ℕ → Poll ℕ × Writer
  pub close : Disk → Writer → Bool × Disk
  pub accepted : Writer → List ℕ
  pub place : Writer → Str × Str
  -- `fs_shims::Reader`, and `Body::new_with_trailers` on a `FsBodySource`
  pub Reader : Type 0
  pub open_file : Disk → Str → Str → Option Reader
  pub body_of_file : Reader → Option http.Headers → ℕ → streams.Body
  -- the directories under the root
  pub dirs : Disk → Option (List Str)
  -- the capacity index, with the variants that an insertion or the pending tasks evict
  pub Index : Type 0
  pub build_index : Option ℕ → Option Duration → Option Duration → Index
  pub run_pending : Index → List VariantId × Index
  pub index_insert : Index → VariantId → ℕ → List VariantId × Index
  pub index_touch : Index → VariantId → Index
  pub index_invalidate : Index → VariantId → Index
  -- SHA-256 in hexadecimal digits, UTF-8, and the text of a key
  pub hash_hex : List ℕ → Str
  pub utf8 : Str → List ℕ
  pub key_text : CacheKey → Str
  pub utf8-injective : (a b : Str) → utf8 a ≡ utf8 b → a ≡ b
  pub utf8-no_nul : (a : Str) → All (λ c. c ≢ 0) a → All (λ c. c ≢ 0) (utf8 a)
  -- rkyv
  pub encode : StoredMeta → Option (List ℕ)
  pub decode : List ℕ → Option StoredMeta
  pub decode-encode : (m : StoredMeta) (b : List ℕ) → encode m ≡ some b → decode b ≡ some m
  -- a directory that can be read lists its files
  pub names-content :
      (d : Disk) (dir n : Str) (ns : List Str) (b : List ℕ)
      → names d dir ≡ some ns
      → content d dir n ≡ some b
      → Any (λ m. m ≡ n) ns
  -- an operation that succeeds does what it says; none touches other files of the directory
  pub content-close :
      (d : Disk) (w : Writer)
      → (close d w).0 ≡ true
      → content (close d w).1 (place w).0 (place w).1 ≡ some (accepted w)
  pub close-others :
      (d : Disk) (w : Writer) (n : Str)
      → n ≢ (place w).1
      → content (close d w).1 (place w).0 n ≡ content d (place w).0 n
  pub content-write :
      (d : Disk) (dir n : Str) (b : List ℕ)
      → (write d dir n b).0 ≡ true
      → content (write d dir n b).1 dir n ≡ some b
  pub write-others :
      (d : Disk) (dir n m : Str) (b : List ℕ)
      → m ≢ n
      → content (write d dir n b).1 dir m ≡ content d dir m
  pub content-rename :
      (d : Disk) (dir from to : Str)
      → (rename d dir from to).0 ≡ true
      → content (rename d dir from to).1 dir to ≡ content d dir from
  pub rename-others :
      (d : Disk) (dir from to n : Str)
      → n ≢ from
      → n ≢ to
      → content (rename d dir from to).1 dir n ≡ content d dir n
  pub remove-others :
      (d : Disk) (dir n m : Str) → m ≢ n → content (remove_file d dir n) dir m ≡ content d dir m
