-- ===== src/Jobs/Tests.antt =====
-- The jobs at concrete stores.
use swiftpaste.Prelude.{
  ℕ, String, ◌≡◌, refl, ◌⊎◌, true, none, some, List, [], ◌∷◌, ◌+◌, arith, str_eq, if◌then◌else◌,
}
use swiftpaste.Prelude.Int.{pos, ◌-ℤ◌}
use swiftpaste.Core.Config.{defaults}
use swiftpaste.Core.Errors.{ok, err, other}
use swiftpaste.Jobs.Store.{Job, no_fields, count}
use swiftpaste.Jobs.Model.{Text, json, Memory, memory}
use swiftpaste.Jobs.Queue.{new_job, seconds, dispatch_scheduled_jobs}
use swiftpaste.Jobs.Worker.{Tasks, run_task, worker_round, worker}
use swiftpaste.Jobs.Recover.{recover_task, recover_stuck_jobs}
use swiftpaste.Jobs.Dispatch.{not_due, due, dispatch_moves_due}
use swiftpaste.Jobs.Retry.{HasDistinctLists, lists_of, round_settles_job, retries_end_in_failed}
use swiftpaste.Jobs.Stuck.{Recovered, recover_requeues_stuck, recover_requeues_itself}

pub defaults-HasDistinctLists : HasDistinctLists defaults
defaults-HasDistinctLists = record {
  queue-processing = refl;
  processing-queue = refl;
  queue-failed = refl;
  failed-queue = refl;
  processing-failed = refl;
  failed-processing = refl;
}

abbrev job_of : String → String → ℕ → Job
job_of id job_type created = record {
  id = id;
  job_type = job_type;
  payload = no_fields;
  retries = pos 3;
  created_at = created;
  processing_started_at = none;
}

abbrev recover_job : Job
recover_job = job_of "r" "recover_stuck_jobs" 1000

abbrev odd_job : Job
odd_job = job_of "o" "unknown" 1000

abbrev lists : List Text → List Text → String → List Text
lists queue processing k =
    if str_eq k "jobs" then queue else if str_eq k "processing" then processing else []

abbrev store : List Text → List Text → Memory
store queue processing = record {
  lists = lists queue processing;
  zset = (json recover_job, 1300) ∷ (json odd_job, 1400) ∷ [];
}

abbrev tasks : Tasks memory Unit
tasks = record {
  index_snippet = λ p x. (ok tt, x);
  cleanup_expired = λ p x. (ok tt, x);
  remove_index = λ p x. (err (other "KeyError"), x);
  recover_stuck_jobs = recover_task memory Unit defaults "new" 1301000;
  flush_views_to_db = λ p x. (ok tt, x);
}

dispatch_moves_due_example :
    let s' = dispatch_scheduled_jobs memory defaults 1300500 (store [] []) in
    (memory.score s' (json odd_job)
      ≡ not_due (seconds 1300500) (memory.score (store [] []) (json odd_job)))
    × (count memory.text_eq (json odd_job) (memory.items s' "jobs")
        ≡ due (seconds 1300500) (memory.score (store [] []) (json odd_job)) + 0)
    × ((k : String) → (str_eq "jobs" k ≡ true) ⊎ (memory.items s' k ≡ memory.items (store [] []) k))
dispatch_moves_due_example = dispatch_moves_due memory defaults 1300500 (store [] []) (json odd_job)

round_settles_job_example :
    lists_of memory defaults
      (worker_round memory Unit defaults tasks (store (json odd_job ∷ []) [], tt)).0
    ≡ record {
      queue = json (record odd_job { retries = pos 2 }) ∷ [];
      processing = [];
      failed = [];
    }
unfolding run_task ◌-ℤ◌
round_settles_job_example =
    round_settles_job memory defaults defaults-HasDistinctLists Unit tasks (json odd_job) odd_job
      (store (json odd_job ∷ []) []) tt refl refl refl refl

retries_end_in_failed_example :
    lists_of memory defaults
      (worker memory Unit defaults tasks 3 (store (json odd_job ∷ []) [], tt)).0
    ≡ record {
      queue = [];
      processing = [];
      failed = json (record odd_job { retries = pos 0 }) ∷ [];
    }
unfolding run_task
retries_end_in_failed_example =
    retries_end_in_failed memory defaults defaults-HasDistinctLists Unit tasks 2 odd_job
      (store (json odd_job ∷ []) []) tt (λ k x y. (other "KeyError", refl)) refl

recover_requeues_stuck_example :
    let s = store [] (json recover_job ∷ []) in
    let (r, s') = recover_stuck_jobs memory defaults "new" 1301000 s in
    Recovered memory defaults defaults-HasDistinctLists 1301000
      (r, s')
      []
      (json (record recover_job { processing_started_at = some 1301000 }) ∷ [])
    × (memory.score s' (json (new_job memory "new" 1301000 "recover_stuck_jobs" no_fields (pos 3)))
        ≡ some 1601)
recover_requeues_stuck_example =
    recover_requeues_stuck memory defaults defaults-HasDistinctLists 1301000 "new"
      (store [] (json recover_job ∷ [])) ((recover_job, refl), tt) (omega arith)

recover_requeues_itself_example :
    let (s', _) = worker_round memory Unit defaults tasks (store (json recover_job ∷ []) [], tt) in
    (memory.items s' "jobs"
      ≡ json (record recover_job { processing_started_at = some 1301000 }) ∷ [])
    × (memory.items s' "processing" ≡ [])
    × (memory.score s' (json (new_job memory "new" 1301000 "recover_stuck_jobs" no_fields (pos 3)))
        ≡ some 1601)
recover_requeues_itself_example =
    recover_requeues_itself memory defaults defaults-HasDistinctLists 1301000 Unit tasks "new"
      recover_job (store (json recover_job ∷ []) []) tt refl refl refl refl refl (omega arith)
