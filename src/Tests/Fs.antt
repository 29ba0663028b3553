-- ===== src/Tests/Fs.antt =====
-- The storage in a directory.
use trillium_cache.Prelude.{
  ℕ, ◌<◌, ◌≡◌, ◌≢◌, ◌↔◌, refl, true, false, none, some, [], ◌∷◌, ◌++◌, Any, arith,
}
use trillium_cache.Text.{Str, codes}
use trillium_cache.Policy.{CachePolicy, same_variant_as}
use trillium_cache.Policy.Repr.{to_repr, IsDerived}
use trillium_cache.Fs.Names.{HasNoNul, variant_input-same_variant_as}
use trillium_cache.Fs.Commit.{entry_of}
use trillium_cache.Fs.Refresh.{refresh_fs-read_entry}
use trillium_cache.Fs.Stored.{written_handle, IsStored, finalize_fs-IsStored, finalize_fs-torn}
use trillium_cache.Fs.{
  FsStore, FsPutHandle, key_hash, variant_hash, variant_input, get_fs, handle_for, finalize_fs,
  read_entry, refresh_fs, body_suffix, meta_suffix,
}
use trillium_cache.Tests.World.{world}
use trillium_cache.Tests.Backend.{urls, lists}
use trillium_cache.Tests.Files.{test_files, TestWriter, known_meta, simple}
use trillium_cache.Tests.Samples.{home}

not_nul : (n : ℕ) → 0 < n → n ≢ 0
not_nul n h e = omega (arith, h, e)

simple-HasNoNul : HasNoNul simple.vary_snapshot
simple-HasNoNul = ((not_nul 97 (omega arith), tt), (not_nul 98 (omega arith), tt), tt)

variant_input-same_variant_as_example :
    (variant_input simple.vary_snapshot ≡ variant_input simple.vary_snapshot)
    ↔ (same_variant_as simple simple ≡ true)
variant_input-same_variant_as_example =
    variant_input-same_variant_as simple simple simple-HasNoNul simple-HasNoNul

-- A writer that has accepted two bytes.
abbrev writer : TestWriter
writer = (
  (key_hash home, (handle_for home simple 0 ((codes "", codes ""), [])).body_tmp),
  104 ∷ 105 ∷ [],
)

abbrev store : FsStore
store = record {
  disk = ([], false);
  index = [];
  temp_counter = 1;
  max_capacity_bytes = none;
  time_to_idle = none;
  time_to_live = none;
}

simple-IsDerived : IsDerived simple
unfolding trillium_cache.Policy.derive_response_cache_control
    trillium_cache.Policy.effective_response_cache_control
simple-IsDerived = record { cache_control = refl; targeted = refl }

abbrev handle : FsPutHandle
handle = written_handle home simple 0 writer 2

placed : writer.0 ≡ (key_hash home, (handle_for home simple 0 writer).body_tmp)
unfolding finalize_fs trillium_cache.Fs.commit trillium_cache.Text.str_eq handle_for key_hash
    variant_hash variant_input trillium_cache.Text.to_string trillium_cache.Text.show_fuel
    trillium_cache.Fs.write_meta trillium_cache.Fs.drop_handle trillium_cache.Fs.evict to_repr
placed = refl

finalized : (finalize_fs store handle (some [])).0 ≡ true
unfolding finalize_fs trillium_cache.Fs.commit trillium_cache.Text.str_eq handle_for key_hash
    variant_hash variant_input trillium_cache.Text.to_string trillium_cache.Text.show_fuel
    trillium_cache.Fs.write_meta trillium_cache.Fs.drop_handle trillium_cache.Fs.evict to_repr
finalized = refl

finalize_fs-IsStored_example :
    Any
      (IsStored (finalize_fs store handle (some [])).1 simple (some []) (104 ∷ 105 ∷ []))
      (get_fs (finalize_fs store handle (some [])).1 home).0
finalize_fs-IsStored_example =
    finalize_fs-IsStored store home simple 0 2 writer (some []) _ simple-IsDerived placed finalized
      refl refl

-- A full disk that holds an earlier response of the variant.
abbrev full : FsStore
full = record {
  disk = (((key_hash home, (handle_for home simple 0 writer).meta_final), 7 ∷ []) ∷ [], true);
  index = [];
  temp_counter = 1;
  max_capacity_bytes = none;
  time_to_idle = none;
  time_to_live = none;
}

full_renames :
    (test_files.rename
      (test_files.close full.disk writer).1
      (key_hash home)
      (handle_for home simple 0 writer).body_tmp
      (handle_for home simple 0 writer).body_final).0
    ≡ true
unfolding finalize_fs trillium_cache.Fs.commit trillium_cache.Text.str_eq handle_for key_hash
    variant_hash variant_input trillium_cache.Text.to_string trillium_cache.Text.show_fuel
    trillium_cache.Fs.write_meta trillium_cache.Fs.drop_handle trillium_cache.Fs.evict to_repr
full_renames = refl

encodes : test_files.encode (record { policy = to_repr simple; trailers = some [] }) ≡ some (1 ∷ [])
unfolding finalize_fs trillium_cache.Fs.commit trillium_cache.Text.str_eq handle_for key_hash
    variant_hash variant_input trillium_cache.Text.to_string trillium_cache.Text.show_fuel
    trillium_cache.Fs.write_meta trillium_cache.Fs.drop_handle trillium_cache.Fs.evict to_repr
encodes = refl

full_refuses :
    (test_files.write
      (test_files.rename
        (test_files.close full.disk writer).1
        (key_hash home)
        (handle_for home simple 0 writer).body_tmp
        (handle_for home simple 0 writer).body_final).1
      (key_hash home)
      (handle_for home simple 0 writer).meta_tmp
      (1 ∷ [])).0
    ≡ false
unfolding finalize_fs trillium_cache.Fs.commit trillium_cache.Text.str_eq handle_for key_hash
    variant_hash variant_input trillium_cache.Text.to_string trillium_cache.Text.show_fuel
    trillium_cache.Fs.write_meta trillium_cache.Fs.drop_handle trillium_cache.Fs.evict to_repr
full_refuses = refl

full_holds :
    test_files.content full.disk (key_hash home) (handle_for home simple 0 writer).meta_final
    ≡ some (7 ∷ [])
unfolding finalize_fs trillium_cache.Fs.commit trillium_cache.Text.str_eq handle_for key_hash
    variant_hash variant_input trillium_cache.Text.to_string trillium_cache.Text.show_fuel
    trillium_cache.Fs.write_meta trillium_cache.Fs.drop_handle trillium_cache.Fs.evict to_repr
full_holds = refl

finalize_fs-torn_example :
    ((finalize_fs full handle (some [])).0 ≡ false)
    × (read_entry
          (finalize_fs full handle (some [])).1.disk
          (key_hash home)
          (handle_for home simple 0 writer).meta_final
        ≡ some (variant_hash simple, entry_of (key_hash home) (variant_hash simple) known_meta))
    × (test_files.content
          (finalize_fs full handle (some [])).1.disk
          (key_hash home)
          (handle_for home simple 0 writer).body_final
        ≡ some (104 ∷ 105 ∷ []))
finalize_fs-torn_example =
    finalize_fs-torn full home simple 0 2 writer (some []) (1 ∷ []) (7 ∷ []) known_meta placed refl
      full_renames encodes full_refuses full_holds refl

refresh_fs-read_entry_example :
    (test_files.content
        (refresh_fs full (entry_of (key_hash home) (variant_hash simple) known_meta) simple).2.disk
        (key_hash home)
        (variant_hash simple ++ body_suffix)
      ≡ test_files.content full.disk (key_hash home) (variant_hash simple ++ body_suffix))
    × ((refresh_fs full (entry_of (key_hash home) (variant_hash simple) known_meta) simple).0 ≡ true
        → read_entry
            (refresh_fs full
              (entry_of (key_hash home) (variant_hash simple) known_meta)
              simple).2.disk
            (key_hash home)
            (variant_hash simple ++ meta_suffix)
          ≡ some (
            variant_hash simple,
            entry_of
                (key_hash home)
                (variant_hash simple)
                (record { policy = to_repr simple; trailers = some [] }),
          ))
refresh_fs-read_entry_example =
    refresh_fs-read_entry full (key_hash home) (variant_hash simple) known_meta simple
