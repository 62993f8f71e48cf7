-- ===== src/Expiry.antt =====
-- cleanup_expired and _resolve_legacy_short_ids of app/jobs/tasks.py: the expiries that are due leave
-- the sorted set, and the responses that they name leave the cache.
pub mod Keys
pub mod Cleanup
pub mod Model
mod Tests
use mathlib.Core.Option
use Prim.Native.String
use swiftpaste.Prelude.{
  ℕ, String, ◌≡◌, Bool, true, false, Option, none, some, List, [], ◌∷◌, leb, ◌==◌, str_eq,
  str_append, if◌then◌else◌,
}
use swiftpaste.Prelude.Int.{pos}
use swiftpaste.Prelude.Split.{split_three}
use swiftpaste.Core.Config.{Settings}
use swiftpaste.Search.{has}
use swiftpaste.Jobs.Store.{JobStore, no_fields}
use swiftpaste.Jobs.Queue.{seconds, enqueue}
use swiftpaste.Snippets.Backend.{Backend}

-- The sorted set `snippets:expiry` and the string keys of the cache, in one Redis.
pub record ExpiryStore : Type 1 where
  pub Store : Type 0
  pub Payload : Type 0
  pub score : Store → String → Option ℕ
  pub cached : Store → String → Option Payload
  pub zrangebyscore : ℕ → Store → List String
  pub zrem : String → Store → Store
  pub delete : String → Store → Store
  pub has-zrangebyscore :
      (now : ℕ) (s : Store) (k : String)
      → has k (zrangebyscore now s) ≡ elim (score s k) [ none ↦ false | some n ↦ leb n now ]
  pub score-zrem :
      (k : String) (s : Store) (j : String)
      → score (zrem k s) j ≡ (if str_eq k j then none else score s j)
  pub cached-zrem : (k : String) (s : Store) (j : String) → cached (zrem k s) j ≡ cached s j
  pub score-delete : (k : String) (s : Store) (j : String) → score (delete k s) j ≡ score s j
  pub cached-delete :
      (k : String) (s : Store) (j : String)
      → cached (delete k s) j ≡ (if str_eq k j then none else cached s j)

-- `_, identifier, version = key.split(":", 2)`; `none` is the ValueError.
unfoldable pub parse_key : String → Option (String × String)
parse_key key = elim (split_three key) [
  | none ↦ none
  | some (_, identifier, version) ↦ some (identifier, version)
]

-- `len(identifier) == 8`
abbrev pub is_short : String → Bool
is_short identifier = String.count identifier == 8

-- The identifiers that are no short ids.
unfoldable pub legacy_identifiers : List String → List String
unfolding parse_key
legacy_identifiers [] = []
legacy_identifiers (key ∷ keys) =
    let rest = legacy_identifiers keys in
    elim (parse_key key) [
      | none ↦ rest
      | some (identifier, _) ↦ if is_short identifier then rest else identifier ∷ rest
    ]

-- `f"snippet:{short_id}:v{version}"`
abbrev pub response_key : String → String → String
response_key short_id version =
    str_append "snippet:" (str_append short_id (str_append ":v" version))

abbrev pub lookup : String → List (String × String) → Option String
lookup k [] = none
lookup k ((j, v) ∷ l) = if str_eq j k then some v else lookup k l

module _ (B : Backend) (uuid : String → Option String) where
  -- `uuid` is `str(UUID(s))`, or none for its ValueError; rows that are marked deleted are found too.
  unfoldable pub resolve_legacy_short_ids : List String → B.Db → List (String × String)
  resolve_legacy_short_ids [] d = []
  resolve_legacy_short_ids (identifier ∷ identifiers) d =
      let rest = resolve_legacy_short_ids identifiers d in
      elim (uuid identifier) [
        | none ↦ rest
        | some id ↦ elim (B.by_id d id) [ none ↦ rest | some x ↦ (id, x.short_id) ∷ rest ]
      ]

-- The keys of the cache that an expiry names.
unfoldable pub response_keys : List (String × String) → String → List String
unfolding parse_key
response_keys legacy_short_ids key = elim (parse_key key) [
  | none ↦ []
  | some (identifier, version) ↦
      elim (if is_short identifier then some identifier else lookup identifier legacy_short_ids) [
        | none ↦ []
        | some short_id ↦ response_key short_id version ∷ response_key short_id "latest" ∷ []
      ]
]

module _ (E : ExpiryStore) where
  open E use {Store, zrem, delete}

  unfoldable pub delete_keys : List String → Store → Store
  delete_keys [] s = s
  delete_keys (k ∷ ks) s = delete_keys ks (delete k s)

  -- The pipeline.
  unfoldable pub clean : List (String × String) → List String → Store → Store
  unfolding delete_keys response_keys
  clean legacy_short_ids [] s = s
  clean legacy_short_ids (key ∷ keys) s =
      clean legacy_short_ids keys (delete_keys (response_keys legacy_short_ids key) (zrem key s))

module _ (E : ExpiryStore) (B : Backend) (R : JobStore) (uuid : String → Option String) where
  unfoldable pub cleanup_expired :
      Settings → String → ℕ → B.Db → E.Store × R.Store → E.Store × R.Store
  unfolding clean legacy_identifiers resolve_legacy_short_ids
  cleanup_expired settings id now d (s, jobs) =
      let expired = E.zrangebyscore (seconds now) s in
      let legacy_short_ids = resolve_legacy_short_ids B uuid (legacy_identifiers expired) d in
      (
        clean E legacy_short_ids expired s,
        enqueue R settings id now "cleanup_expired" no_fields settings.cleanup_expired_delay_seconds
            (pos 3) jobs,
      )
