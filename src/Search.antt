-- ===== src/Search.antt =====
-- The search index: tokenize of app/utils/dep.py, and index_snippet and remove_index of
-- app/jobs/tasks.py.
pub mod Index
pub mod Results
pub mod Pages
pub mod Finds
pub mod Counts
pub mod Repeats
pub mod Model
mod Examples
mod Tests
use swiftpaste.Prelude.{
  String, ◌≡◌, Bool, true, false, not, ◌&&◌, ◌||◌, Option, none, List, [], ◌∷◌, str_eq, str_append,
  if◌then◌else◌,
}
use swiftpaste.Core.Errors.{Result, ok, err, other}
use swiftpaste.Jobs.Store.{JobPayload, no_fields, snippet_fields}

-- The sets of the index and the string keys of the cache. `scan_iter` lists the keys of the cache that
-- begin as given; no set has such a key.
pub record IndexStore : Type 1 where
  pub Store : Type 0
  pub Payload : Type 0
  pub is_member : Store → String → String → Bool
  pub cached : Store → String → Option Payload
  pub sadd : String → String → Store → Store
  pub srem : String → String → Store → Store
  pub scan_iter : Store → String → List String
  pub delete : String → Store → Store
  pub is_member-sadd :
      (key member : String) (s : Store) (k m : String)
      → is_member (sadd key member s) k m ≡ ((str_eq key k && str_eq member m) || is_member s k m)
  pub is_member-srem :
      (key member : String) (s : Store) (k m : String)
      → is_member (srem key member s) k m
        ≡ (not (str_eq key k && str_eq member m) && is_member s k m)
  pub is_member-delete :
      (key : String) (s : Store) (k m : String) → is_member (delete key s) k m ≡ is_member s k m
  pub cached-sadd :
      (key member : String) (s : Store) (k : String) → cached (sadd key member s) k ≡ cached s k
  pub cached-srem :
      (key member : String) (s : Store) (k : String) → cached (srem key member s) k ≡ cached s k
  pub cached-delete :
      (key : String) (s : Store) (k : String)
      → cached (delete key s) k ≡ (if str_eq key k then none else cached s k)

abbrev pub has : String → List String → Bool
has t [] = false
has t (u ∷ us) = str_eq u t || has t us

-- `set(words)`, each word once.
unfoldable pub distinct : List String → List String
distinct [] = []
distinct (w ∷ ws) = let rest = distinct ws in if has w ws then rest else w ∷ rest

-- `f"search:index:{token}"`
abbrev pub index_key : String → String
index_key token = str_append "search:index:" token

-- `f"snippet:{short_id}:v"`, which the pattern of the scan begins with.
abbrev pub cache_prefix : String → String
cache_prefix short_id = str_append "snippet:" (str_append short_id ":v")

-- `findall` is `re.findall(r"\w+", text.lower())`.
module _ (findall : String → List String) where
  unfoldable pub tokenize : String → List String
  unfolding distinct
  tokenize text = distinct (findall text)

module _ (I : IndexStore) (findall : String → List String) where
  open I use {Store, sadd, srem, scan_iter, delete}

  unfoldable pub add_all : List String → String → Store → Store
  add_all [] short_id s = s
  add_all (token ∷ tokens) short_id s = add_all tokens short_id (sadd (index_key token) short_id s)

  unfoldable pub remove_all : List String → String → Store → Store
  remove_all [] short_id s = s
  remove_all (token ∷ tokens) short_id s =
      remove_all tokens short_id (srem (index_key token) short_id s)

  unfoldable pub delete_all : List String → Store → Store
  delete_all [] s = s
  delete_all (key ∷ keys) s = delete_all keys (delete key s)

  unfoldable pub index_snippet : JobPayload → Store → Result (Unit {0}) × Store
  unfolding add_all tokenize
  index_snippet no_fields s = (err (other "KeyError"), s)
  index_snippet (snippet_fields snippet_id short_id text) s =
      (ok tt, add_all (tokenize findall text) short_id s)

  -- The keys are scanned while the pipeline is filled, before it runs.
  unfoldable pub remove_index : JobPayload → Store → Result (Unit {0}) × Store
  unfolding remove_all delete_all tokenize
  remove_index no_fields s = (err (other "KeyError"), s)
  remove_index (snippet_fields snippet_id short_id text) s = (
    ok tt,
    delete_all (scan_iter s (cache_prefix short_id))
        (remove_all (tokenize findall text) short_id s),
  )
