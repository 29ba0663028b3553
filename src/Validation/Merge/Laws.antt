-- ===== src/Validation/Merge/Laws.antt =====
-- What is found in headers that were forwarded or merged.
use trillium_cache.Prelude.{
  ◌≡◌, refl, Bool, true, false, ◌||◌, Option, none, some, List, [], ◌∷◌, arith, any, if◌then◌else◌,
  or_else,
}
use trillium_cache.Text.{Str}
use trillium_cache.Http.{Http, connection, find_entry, IsDistinct}
use trillium_cache.Validation.Merge.{
  connection_names, hop_by_hop, remove_names, remove_listed, copy_without_hop_by_hop_headers,
  is_excluded_from_revalidation_update, merge_entries, merge_revalidation_headers,
}

if_if :
    {A : Type 0} (b c : Bool) (x y : A)
    → (if b then x else if c then x else y) ≡ (if c || b then x else y)
if_if true true x y = refl
if_if true false x y = refl
if_if false true x y = refl
if_if false false x y = refl

module _ ⦃http : Http⦄ where
  open http use {
    Headers, HeaderName, HeaderValue, get_values, get_str, known, named, name_eq, name_eq_iff,
    remove, remove_all, get_values-remove, get_values-remove_all, get_values-insert, iter,
    find_entry-iter, iter-IsDistinct, insert,
  }

  -- A `Connection` line lists the name.
  abbrev pub lists : Option Str → HeaderName → Bool
  lists none n = false
  lists (some line) n = any (λ name. name_eq (named name) n) (connection_names line)

  abbrev pub is_listed : Headers → HeaderName → Bool
  is_listed headers n = lists (get_str headers (known connection)) n

  get_values-remove_names :
      (names : List Str) (out : Headers) (n : HeaderName)
      → get_values (remove_names names out) n
        ≡ (if any (λ name. name_eq (named name) n) names then none else get_values out n)
  unfolding remove_names
  get_values-remove_names [] out n = refl
  get_values-remove_names (name ∷ names) out n = ground (
    arith,
    get_values-remove_names names (remove out (named name)) n,
    get_values-remove out (named name) n,
  )

  abbrev pub is_hop_by_hop : HeaderName → Bool
  is_hop_by_hop n = any (λ h. name_eq h n) hop_by_hop

  get_values-remove_listed :
      (line : Option Str) (out : Headers) (n : HeaderName)
      → get_values (remove_listed line out) n ≡ (if lists line n then none else get_values out n)
  unfolding remove_listed
  get_values-remove_listed none out n = refl
  get_values-remove_listed (some line) out n = get_values-remove_names (connection_names line) out n

  -- A forwarded copy keeps exactly the headers that are neither hop-by-hop nor listed in `Connection`.
  pub get_values-copy :
      (headers : Headers) (n : HeaderName)
      → get_values (copy_without_hop_by_hop_headers headers) n
        ≡ (if is_hop_by_hop n || is_listed headers n then none else get_values headers n)
  unfolding copy_without_hop_by_hop_headers
  get_values-copy headers n =
      simp (get_values-remove_listed, get_values-remove_all)
        (if_if (is_listed headers n) (is_hop_by_hop n) _ _)

  get_values-merge_entries :
      (out : Headers) (entries : List (HeaderName × List HeaderValue)) (n : HeaderName)
      → IsDistinct name_eq entries
      → get_values (merge_entries out entries) n ≡ (
          if is_excluded_from_revalidation_update n
          then get_values out n
          else or_else (find_entry name_eq n entries) (get_values out n))
  unfolding merge_entries
  get_values-merge_entries out [] n d = ground arith
  get_values-merge_entries out ((name, values) ∷ rest) n d = ground (
    arith,
    get_values-merge_entries
        (if is_excluded_from_revalidation_update name then out else insert out name values) rest n
        d.1,
    get_values-insert out name n values,
    name_eq_iff name n,
  )

  -- After a 304 a header keeps its stored value if it describes the body or the 304 does not have
  -- it, and takes the value of the 304 otherwise.
  pub get_values-merge :
      (stored new_headers : Headers) (n : HeaderName)
      → get_values (merge_revalidation_headers stored new_headers) n ≡ (
          if is_excluded_from_revalidation_update n
          then get_values stored n
          else or_else (get_values new_headers n) (get_values stored n))
  unfolding merge_revalidation_headers
  get_values-merge stored new_headers n =
      rw (get_values-merge_entries stored (iter new_headers) n (iter-IsDistinct new_headers))
        (rw (find_entry-iter new_headers n))
