-- ===== src/Views.antt =====
-- increment_snippet_views of app/services/snippet_service.py and flush_views_to_db of app/jobs/tasks.py:
-- the views are counted in Redis and added to the rows from time to time.
pub mod Gains
pub mod Flush
pub mod Arrivals
pub mod Model
mod Tests
use mathlib.Core.Option
use swiftpaste.Prelude.{
  ℕ, suc, ◌+◌, String, ◌≡◌, Bool, true, false, not, ◌&&◌, Option, none, some, List, [], ◌∷◌, ◌==◌,
  str_eq, str_append, if◌then◌else◌,
}
use swiftpaste.Prelude.Int.{pos}
use swiftpaste.Prelude.Split.{last_part}
use swiftpaste.Core.Config.{Settings}
use swiftpaste.Search.{has}
use swiftpaste.Jobs.Store.{JobStore, no_fields}
use swiftpaste.Jobs.Queue.{enqueue}
use swiftpaste.Models.{set_views}
use swiftpaste.Snippets.Backend.{Backend}
use swiftpaste.Snippets.Common.{select_by_short_id}

-- `f"snippet:views:{snippet_id}"`
abbrev pub views_key : String → String
views_key snippet_id = str_append "snippet:views:" snippet_id

-- What INCR leaves under a key.
abbrev pub incremented : Option ℕ → Option ℕ
incremented none = some 1
incremented (some n) = some (suc n)

abbrev pub is_distinct : List String → Bool
is_distinct [] = true
is_distinct (k ∷ ks) = not (has k ks) && is_distinct ks

-- The counters in Redis; `keys` is KEYS with the pattern `snippet:views:*`.
pub record ViewStore : Type 1 where
  pub Store : Type 0
  pub get : String → Store → Option ℕ
  pub keys : Store → List String
  pub incr : String → Store → Store
  pub delete : String → Store → Store
  pub get-incr :
      (k : String) (s : Store) (j : String)
      → get j (incr k s) ≡ (if str_eq k j then incremented (get j s) else get j s)
  pub get-delete :
      (k : String) (s : Store) (j : String)
      → get j (delete k s) ≡ (if str_eq k j then none else get j s)
  pub keys-is_distinct : (s : Store) → is_distinct (keys s) ≡ true
  pub has-keys :
      (snippet_id : String) (s : Store)
      → has (views_key snippet_id) (keys s)
        ≡ elim (get (views_key snippet_id) s) [ none ↦ false | some _ ↦ true ]

module _ (V : ViewStore) where
  open V use {Store, get, incr, delete}

  abbrev pub increment_snippet_views : String → Store → Store
  increment_snippet_views snippet_id s = incr (views_key snippet_id) s

  -- The calls of other clients, in the order in which they come.
  abbrev pub increments : List String → Store → Store
  increments [] s = s
  increments (snippet_id ∷ ids) s = increments ids (increment_snippet_views snippet_id s)

  unfoldable pub delete_keys : List String → Store → Store
  delete_keys [] s = s
  delete_keys (k ∷ ks) s = delete_keys ks (delete k s)

module _ (V : ViewStore) (B : Backend) where
  open V use {Store, get}
  open B use {Db, update_snippet_row}

  -- The loop over the keys: the rows in the session, and `flushed_count`.
  unfoldable pub add_views : List String → Store → Db → Db × ℕ
  add_views [] s d = (d, 0)
  add_views (key ∷ keys) s d = elim (get key s) [
    | none ↦ add_views keys s d
    | some count ↦ elim (select_by_short_id B d (last_part key)) [
      | none ↦ add_views keys s d
      | some snippet_obj ↦
          let views = snippet_obj.views + count in
          let (d', flushed_count) =
            add_views keys s (update_snippet_row snippet_obj.id (set_views views) d) in
          (d', suc flushed_count)
    ]
  ]

  -- `if flushed_count > 0: await session.commit()`; the session is left without a commit else.
  unfoldable pub flush_rows : List String → Store → Db → Db
  unfolding add_views
  flush_rows keys s d =
      let (d', flushed_count) = add_views keys s d in if flushed_count == 0 then d else d'

module _ (V : ViewStore) (B : Backend) (R : JobStore) where
  -- `late` are the views that other clients count after the counters have been read and before they are
  -- deleted.
  unfoldable pub flush_views_to_db :
      Settings → String → ℕ → List String → B.Db × V.Store × R.Store → B.Db × V.Store × R.Store
  unfolding flush_rows delete_keys
  flush_views_to_db settings id now late (d, s, jobs) =
      let keys = V.keys s in
      (
        flush_rows V B keys s d,
        delete_keys V keys (increments V late s),
        enqueue R settings id now "flush_views_to_db" no_fields
            settings.flush_views_interval_seconds (pos 3) jobs,
      )
