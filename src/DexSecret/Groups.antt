-- ===== src/DexSecret/Groups.antt =====
-- `get_group_search_configured`: the base DN and the filter of the group search.
pub mod Search
use test_minio.Base.{
  ℕ, String, true, false, Option, none, some, List, [], ◌∷◌, ◌<>◌, Result, ok, err, index_error,
  ◌>>=◌, ◌==◌, get_elem?, if◌then◌else◌,
}
use test_minio.Base.Text.{split, contains}
use test_minio.Base.Value.{Value, str, obj, set_path}
use test_minio.Base64.{b64decode}
use test_minio.Cluster.{Secret}
use test_minio.DexSecret.Reading.{secret_get}

-- xs[i]
unfoldable pub at : List String → ℕ → Result String
at xs i = elim (get_elem? xs i) [ none ↦ err index_error | some x ↦ ok x ]

-- The first loop: it ends at the first group whose second part is not "none", and a group without a
-- second part, met before, raises `IndexError`.
unfoldable pub find_base_dn : List String → Result String
find_base_dn [] = ok "none"
find_base_dn (g ∷ groups) = elim (at (split g ",") 1) [
  | err e ↦ err e
  | ok root ↦ elim (root == "none") [ true ↦ find_base_dn groups | false ↦ ok root ]
]

-- The second loop.
unfoldable pub filter_loop : String → List String → Result String
filter_loop filter [] = ok filter
filter_loop filter (g ∷ groups) = elim (at (split g ",") 0) [
  | err e ↦ err e
  | ok cn ↦ filter_loop (filter <> "(" <> cn <> ")") groups
]

pub record GroupSearch : Type 0 where
  pub base_dn : String
  pub filter : String

unfoldable pub group_search : String → Result GroupSearch
group_search group =
    if contains "::::" group
    then (do
      base ← find_base_dn (split group "::::")
      filter ← filter_loop "\"(|" (split group "::::")
      ok (record { base_dn = base; filter = filter <> ")\"" }))
    else (do
      cn ← at (split group ",") 0
      base ← at (split group ",") 1
      ok (record { base_dn = base; filter = "\"(" <> cn <> ")\"" }))

unfoldable pub set_group_search : Value → String → Result Value
set_group_search connector encoded = do
  c ← set_path ("config" ∷ "groupSearch" ∷ []) (obj []) connector
  group ← b64decode encoded
  found ← group_search group
  c ← set_path ("config" ∷ "groupSearch" ∷ "baseDN" ∷ []) (str found.base_dn) c
  c ← set_path ("config" ∷ "groupSearch" ∷ "filter" ∷ []) (str found.filter) c
  set_path ("config" ∷ "groupSearch" ∷ "nameAttr" ∷ []) (str "") c

-- Without groups in the secret the connector has no group search.
unfoldable pub get_group_search_configured : Secret → Value → Result Value
get_group_search_configured secret connector = do
  group ← secret_get secret "groups"
  elim group [ none ↦ ok connector | some encoded ↦ set_group_search connector encoded ]
