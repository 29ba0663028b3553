-- ===== src/Tests/Files.antt =====
-- A disk that is a list of files, which refuses to write where it is full, and an encoding that knows one
-- stored response.
use trillium_cache.Prelude.{
  ℕ, ◌≡◌, ◌≢◌, inl, inr, refl, sym, ap, ◌∙◌, Bool, true, false, not, ◌&&◌, Option, none, some, List,
  [], ◌∷◌, ◌++◌, map, keep, length, Any, arith, and_then, Bool-cases, Option-cases, if◌then◌else◌,
  ◌==◌, ==_iff,
}
use mathlib.Core.Path.{subst}
use trillium_cache.Text.{Str, codes, str_eq}
use trillium_cache.Text.Equality.{str_eq_iff, str_eq_refl}
use trillium_cache.Policy.{CachePolicy}
use trillium_cache.Tee.Streams.{ready}
use trillium_cache.Fs.Disk.{StoredMeta, VariantId, FileSystem}
use trillium_cache.Tests.World.{world, Entries}
use trillium_cache.Tests.Backend.{urls, lists}
use trillium_cache.Tests.Samples.{shared_options}

abbrev pub Files : Type 0
Files = List ((Str × Str) × List ℕ)

abbrev pub lookup : Files → Str → Str → Option (List ℕ)
lookup [] dir n = none
lookup ((p, b) ∷ rest) dir n =
    let later = lookup rest dir n in if str_eq p.0 dir && str_eq p.1 n then some b else later

abbrev pub listed : Files → Str → List Str
listed [] dir = []
listed ((p, b) ∷ rest) dir =
    let later = listed rest dir in if str_eq p.0 dir then p.1 ∷ later else later

abbrev pub delete : Files → Str → Str → Files
delete [] dir n = []
delete ((p, b) ∷ rest) dir n =
    let later = delete rest dir n in
    if str_eq p.0 dir && str_eq p.1 n then later else (p, b) ∷ later

pub delete-others :
    (f : Files) (dir n m : Str) → m ≢ n → lookup (delete f dir n) dir m ≡ lookup f dir m
delete-others [] dir n m h = refl
delete-others ((p, b) ∷ rest) dir n m h =
    ground (arith, delete-others rest dir n m h, str_eq_iff p.1 n, str_eq_iff p.1 m, h)

pub listed-lookup :
    (f : Files) (dir n : Str) (b : List ℕ)
    → lookup f dir n ≡ some b
    → Any (λ m. m ≡ n) (listed f dir)
listed-lookup [] dir n b e = absurd (cc e)
listed-lookup ((p, c) ∷ rest) dir n b e = elim (Bool-cases (str_eq p.0 dir)) [
  | inr f ↦ rw f (listed-lookup rest dir n b (rw f at e))
  | inl f ↦ elim (Bool-cases (str_eq p.1 n)) [
    | inl g ↦ rw f (inl ((str_eq_iff p.1 n).0 g))
    | inr g ↦ rw f (inr (listed-lookup rest dir n b (rw g at (rw f at e))))
  ]
]

pub lookup-first :
    (f : Files) (dir n : Str) (b : List ℕ) → lookup (((dir, n), b) ∷ f) dir n ≡ some b
lookup-first f dir n b = rw (str_eq_refl dir, str_eq_refl n) refl

pub lookup-later :
    (f : Files) (dir n m : Str) (b : List ℕ)
    → m ≢ n
    → lookup (((dir, n), b) ∷ f) dir m ≡ lookup f dir m
lookup-later f dir n m b h = ground (arith, str_eq_iff n m, h)

pub listed_in :
    (f : Files) (dir n : Str) (ns : List Str) (b : List ℕ)
    → some (listed f dir) ≡ some ns
    → lookup f dir n ≡ some b
    → Any (λ m. m ≡ n) ns
listed_in f dir n ns b e g =
    let same : listed f dir ≡ ns = cc e in
    subst (λ x. Any (λ m. m ≡ n) x) same (listed-lookup f dir n b g)

-- The files, and whether the disk is full.
abbrev pub TestDisk : Type 0
TestDisk = Files × Bool

abbrev pub moved : TestDisk → Str → Str → Str → Bool × TestDisk
moved d dir from to = elim (lookup d.0 dir from) [
  | none ↦ (false, d)
  | some b ↦ (true, (((dir, to), b) ∷ delete d.0 dir from, d.1))
]

pub lookup-moved :
    (d : TestDisk) (dir from to : Str)
    → (moved d dir from to).0 ≡ true
    → lookup (moved d dir from to).1.0 dir to ≡ lookup d.0 dir from
lookup-moved d dir from to ok = elim (Option-cases (lookup d.0 dir from)) [
  | inl e ↦ absurd (cc (rw (e, moved) at ok))
  | inr (b, e) ↦ rw (e, moved) (lookup-first (delete d.0 dir from) dir to b)
]

pub moved-others :
    (d : TestDisk) (dir from to n : Str)
    → n ≢ from
    → n ≢ to
    → lookup (moved d dir from to).1.0 dir n ≡ lookup d.0 dir n
moved-others d dir from to n h k = elim (Option-cases (lookup d.0 dir from)) [
  | inl e ↦ rw (e, moved) refl
  | inr (b, e) ↦
      rw (e, moved)
        (lookup-later (delete d.0 dir from) dir to n b k ∙ delete-others d.0 dir from n h)
]

abbrev pub written : TestDisk → Str → Str → List ℕ → Bool × TestDisk
written d dir n b = elim d.1 [ true ↦ (false, d) | false ↦ (true, (((dir, n), b) ∷ d.0, d.1)) ]

pub lookup-written :
    (d : TestDisk) (dir n : Str) (b : List ℕ)
    → (written d dir n b).0 ≡ true
    → lookup (written d dir n b).1.0 dir n ≡ some b
lookup-written (f, true) dir n b ok = absurd (cc ok)
lookup-written (f, false) dir n b ok = lookup-first f dir n b

pub written-others :
    (d : TestDisk) (dir n m : Str) (b : List ℕ)
    → m ≢ n
    → lookup (written d dir n b).1.0 dir m ≡ lookup d.0 dir m
written-others (f, true) dir n m b h = refl
written-others (f, false) dir n m b h = lookup-later f dir n m b h

-- Whether two values are equal, by those of their parts.
abbrev pub Check : Type 0 → Type 0
Check A = (a b : A) → Option (a ≡ b)

abbrev pub equal_if : (a b : ℕ) (t : Bool) → (a == b) ≡ t → Option (a ≡ b)
equal_if a b true e = some ((==_iff a b).0 e)
equal_if a b false e = none

abbrev pub check_nat : Check ℕ
check_nat a b = equal_if a b (a == b) refl

abbrev pub check_bool : Check Bool
check_bool true true = some refl
check_bool true false = none
check_bool false true = none
check_bool false false = some refl

abbrev pub check_option : {A : Type 0} → Check A → Check (Option A)
check_option f none none = some refl
check_option f none (some b) = none
check_option f (some a) none = none
check_option f (some a) (some b) = and_then (f a b) (λ e. some (ap some e))

abbrev pub check_list : {A : Type 0} → Check A → Check (List A)
check_list f [] [] = some refl
check_list f [] (b ∷ bs) = none
check_list f (a ∷ more) [] = none
check_list f (a ∷ more) (b ∷ bs) =
    let rest = check_list f more bs in
    and_then (f a b) (λ e. and_then rest (λ es. some (λ i. e i ∷ es i)))

abbrev pub check_pair : {A B : Type 0} → Check A → Check B → Check (A × B)
check_pair f g (a, b) (c, d) =
    and_then (f a c) (λ e. and_then (g b d) (λ h. some (λ i. (e i, h i))))

abbrev pub check_str : Check Str
check_str = check_list check_nat

abbrev pub check_entries : Check Entries
check_entries = check_list (check_pair check_str (check_list check_str))

abbrev pub check_meta : Check StoredMeta
check_meta a b =
    let p = a.policy in
    let q = b.policy in
    and_then (check_str p.request_method q.request_method) (λ m.
      and_then
        (check_list (check_pair check_str (check_option check_str)) p.vary_snapshot q.vary_snapshot)
        (λ v. and_then (check_nat p.response_status q.response_status) (λ s.
          and_then (check_entries p.response_headers q.response_headers) (λ h.
            and_then (check_nat p.response_time q.response_time) (λ t.
              and_then (check_bool p.shared q.shared) (λ o.
                and_then (check_nat p.cache_heuristic q.cache_heuristic) (λ r.
                  and_then (check_nat p.immutable_min_time_to_live q.immutable_min_time_to_live)
                    (λ l. and_then (check_option check_entries a.trailers b.trailers) (λ end.
                      some (λ i. record {
                        policy = record {
                          request_method = m i;
                          vary_snapshot = v i;
                          response_status = s i;
                          response_headers = h i;
                          response_time = t i;
                          shared = o i;
                          cache_heuristic = r i;
                          immutable_min_time_to_live = l i;
                        };
                        trailers = end i;
                      }))))))))))

-- The stored response that the encoding knows.
abbrev pub simple : CachePolicy
simple = record {
  request_method = codes "G";
  vary_snapshot = (codes "a", some (codes "b")) ∷ [];
  response_status = 200;
  response_headers = [];
  response_cache_control = none;
  targeted_cc_in_effect = false;
  response_time = 5;
  options = shared_options;
}

abbrev pub known_meta : StoredMeta
known_meta = record {
  policy = record {
    request_method = codes "G";
    vary_snapshot = (codes "a", some (codes "b")) ∷ [];
    response_status = 200;
    response_headers = [];
    response_time = 5;
    shared = true;
    cache_heuristic = shared_options.cache_heuristic;
    immutable_min_time_to_live = shared_options.immutable_min_time_to_live;
  };
  trailers = some [];
}

abbrev pub encode_known : StoredMeta → Option (List ℕ)
encode_known m = and_then (check_meta m known_meta) (λ e. some (1 ∷ []))

pub decode-known :
    (m : StoredMeta) (b : List ℕ) → encode_known m ≡ some b → some known_meta ≡ some m
decode-known m b e = elim (Option-cases (check_meta m known_meta)) [
  | inl f ↦ absurd (cc (rw f at e))
  | inr (same, f) ↦ ap some (sym same)
]

-- A writer is the place of its file and what it has accepted; the index evicts nothing.
abbrev pub TestWriter : Type 0
TestWriter = (Str × Str) × List ℕ

instance abbrev pub test_files : FileSystem
test_files = record {
  Disk = TestDisk;
  names = λ d dir. some (listed d.0 dir);
  content = λ d dir n. lookup d.0 dir n;
  file_len = λ d dir n. and_then (lookup d.0 dir n) (λ b. some (length b));
  create_dir_all = λ d dir. (true, d);
  write = written;
  rename = moved;
  remove_file = λ d dir n. (delete d.0 dir n, d.1);
  remove_dir_all = λ d dir. (keep (λ f. not (str_eq f.0.0 dir)) d.0, d.1);
  Writer = TestWriter;
  create = λ d dir n. (some ((dir, n), []), (((dir, n), []) ∷ d.0, d.1));
  poll_write = λ w b. (ready (length b), (w.0, w.1 ++ b));
  close = λ d w. (true, ((w.0, w.1) ∷ d.0, d.1));
  accepted = λ w. w.1;
  place = λ w. w.0;
  Reader = List ℕ;
  open_file = λ d dir n. lookup d.0 dir n;
  body_of_file = λ r t n. ([], r, t);
  dirs = λ d. some (map (λ f. f.0.0) d.0);
  Index = List VariantId;
  build_index = λ cap idle live. [];
  run_pending = λ ids. ([], ids);
  index_insert = λ ids id len. ([], id ∷ ids);
  index_touch = λ ids id. ids;
  index_invalidate = λ ids id. keep (λ i. not (str_eq i.variant_hash id.variant_hash)) ids;
  hash_hex = λ b. b;
  utf8 = λ s. s;
  key_text = λ k. k.method;
  utf8-injective = λ a b e. e;
  utf8-no_nul = λ a h. h;
  encode = encode_known;
  decode = λ b. some known_meta;
  decode-encode = decode-known;
  names-content = λ d dir n ns b e f. listed_in d.0 dir n ns b e f;
  content-close = λ d w ok. lookup-first d.0 w.0.0 w.0.1 w.1;
  close-others = λ d w n h. lookup-later d.0 w.0.0 w.0.1 n w.1 h;
  content-write = lookup-written;
  write-others = written-others;
  content-rename = lookup-moved;
  rename-others = moved-others;
  remove-others = λ d dir n m h. delete-others d.0 dir n m h;
}
