-- ===== src/Tasks.antt =====
-- TASKS of app/jobs/tasks.py: the five tasks of the worker over one world.
pub mod Pushes
pub mod Created
pub mod Hidden
pub mod Found
pub mod Deleted
mod Tests
use swiftpaste.Prelude.{ℕ, suc, String, Option, List}
use swiftpaste.Core.Config.{Settings}
use swiftpaste.Core.Errors.{Result, ok}
use swiftpaste.Jobs.Store.{JobStore}
use swiftpaste.Jobs.Worker.{Handler, Tasks}
use swiftpaste.Jobs.Recover.{recover_stuck_jobs}
use swiftpaste.Snippets.Backend.{Backend}
use swiftpaste.Search.{IndexStore, index_snippet, remove_index}
use swiftpaste.Expiry.{ExpiryStore, cleanup_expired}
use swiftpaste.Views.{ViewStore, flush_views_to_db}

-- What the tasks act on beside the jobs. `runs` numbers the runs of tasks.
pub record TaskWorld (I : IndexStore) (E : ExpiryStore) (V : ViewStore) (B : Backend) : Type 0 where
  pub index : I.Store
  pub expiries : E.Store
  pub views : V.Store
  pub db : B.Db
  pub runs : ℕ

-- What a run takes from elsewhere, by its number: a fresh uuid4, the clock, and the views that other clients
-- count while it runs; and `re.findall` and `UUID`, as `tokenize` and `_resolve_legacy_short_ids` call them.
pub record Surroundings : Type 0 where
  pub uuid4 : ℕ → String
  pub clock : ℕ → ℕ
  pub late : ℕ → List String
  pub findall : String → List String
  pub parse_uuid : String → Option String

module _ (R : JobStore) (I : IndexStore) (E : ExpiryStore) (V : ViewStore) (B : Backend)
    (around : Surroundings) (settings : Settings) where
  abbrev pub W : Type 0
  W = TaskWorld I E V B

  unfoldable pub index_task : Handler R W
  index_task payload (s, w) =
      let (r, index) = index_snippet I around.findall payload w.index in
      (r, (s, record w { index = index; runs = suc w.runs }))

  unfoldable pub remove_task : Handler R W
  remove_task payload (s, w) =
      let (r, index) = remove_index I around.findall payload w.index in
      (r, (s, record w { index = index; runs = suc w.runs }))

  unfoldable pub cleanup_task : Handler R W
  cleanup_task payload (s, w) =
      let (expiries, s') =
        cleanup_expired E B R around.parse_uuid settings (around.uuid4 w.runs) (around.clock w.runs)
          w.db (w.expiries, s) in
      (ok tt, (s', record w { expiries = expiries; runs = suc w.runs }))

  unfoldable pub stuck_task : Handler R W
  stuck_task payload (s, w) =
      let (r, s') = recover_stuck_jobs R settings (around.uuid4 w.runs) (around.clock w.runs) s in
      (r, (s', record w { runs = suc w.runs }))

  unfoldable pub flush_task : Handler R W
  flush_task payload (s, w) =
      let (db, views, s') =
        flush_views_to_db V B R settings (around.uuid4 w.runs) (around.clock w.runs)
          (around.late w.runs) (w.db, w.views, s) in
      (ok tt, (s', record w { db = db; views = views; runs = suc w.runs }))

  -- `TASKS`
  abbrev pub all_tasks : Tasks R W
  all_tasks = record {
    index_snippet = index_task;
    cleanup_expired = cleanup_task;
    remove_index = remove_task;
    recover_stuck_jobs = stuck_task;
    flush_views_to_db = flush_task;
  }
