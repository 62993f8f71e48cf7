-- ===== src/Tasks/Pushes.antt =====
-- The tasks leave what is in the queue.
use swiftpaste.Prelude.{
  ℕ, ◌≡◌, ◌⊎◌, refl, String, List, [], ◌∷◌, Bool-cases, Option-cases, inl, inr,
}
use swiftpaste.Prelude.Int.{pos}
use swiftpaste.Prelude.Lists.{HasInFront-trans}
use swiftpaste.Core.Config.{Settings}
use swiftpaste.Core.Errors.{Failure, Result, ok, err}
use swiftpaste.Jobs.Store.{JobPayload, JobStore}
use swiftpaste.Jobs.Worker.{Handler, Tasks}
use swiftpaste.Jobs.Keeps.{run_task-dispatch}
use swiftpaste.Jobs.Recover.{is_stuck, requeue, recover_loop, recover_stuck_jobs}
use swiftpaste.Jobs.Retry.{HasDistinctLists}
use swiftpaste.Jobs.Backlog.{Pushes, Pushes-enqueue, Pushes-lrem_lpush, OnlyPush}
use swiftpaste.Snippets.Backend.{Backend}
use swiftpaste.Search.{IndexStore}
use swiftpaste.Expiry.{ExpiryStore, cleanup_expired}
use swiftpaste.Views.{ViewStore, flush_views_to_db}
use swiftpaste.Tasks.{
  TaskWorld, Surroundings, index_task, remove_task, cleanup_task, stuck_task, flush_task, all_tasks,
}

pub Result-cases : (r : Result (Unit {0})) → ((e : Failure) × (r ≡ err e)) ⊎ (r ≡ ok tt)
Result-cases (err e) = inl (e, refl)
Result-cases (ok tt) = inr refl

module _ (R : JobStore) (settings : Settings) (lists : HasDistinctLists settings) where
  open R use {Store, Text, loads, items}

  Pushes-recover_loop :
      (now : ℕ) (jobs : List Text) (s : Store)
      → Pushes R settings s (recover_loop R settings now jobs s).1
  unfolding recover_loop
  Pushes-recover_loop now [] s = ([], refl)
  Pushes-recover_loop now (t ∷ ts) s = elim (Option-cases (loads t)) [
    | inl bad ↦ rw (bad, recover_loop) ([], refl)
    | inr (job, parsed) ↦ elim (Bool-cases (is_stuck now job)) [
      | inl stuck ↦
          rw (parsed, stuck, recover_loop)
            (HasInFront-trans (Pushes-lrem_lpush R settings lists t _ settings.queue s)
              (Pushes-recover_loop now ts (requeue R settings now t job s)))
      | inr fresh ↦ rw (parsed, fresh, recover_loop) (Pushes-recover_loop now ts s)
    ]
  ]

  Pushes-recover_stuck_jobs :
      (uuid : String) (now : ℕ) (s : Store)
      → Pushes R settings s (recover_stuck_jobs R settings uuid now s).1
  unfolding recover_stuck_jobs
  Pushes-recover_stuck_jobs uuid now s =
      let (_, s') = recover_loop R settings now (items s settings.processing) s in
      let more = Pushes-recover_loop now (items s settings.processing) s in
      elim (Result-cases (recover_loop R settings now (items s settings.processing) s).0) [
        | inl (e, raised) ↦ rw (raised, recover_stuck_jobs) more
        | inr done ↦
            rw (done, recover_stuck_jobs)
              (HasInFront-trans more (Pushes-enqueue R settings uuid now _ _ _ (pos 3) s'))
      ]

  -- A handler that leaves what is in the queue.
  abbrev HandlerPushes : (W : Type 0) → Handler R W → Type 0
  HandlerPushes W handler =
      (payload : JobPayload) (s : Store) (w : W) → Pushes R settings s (handler payload (s, w)).1.0

  handlers-OnlyPush :
      (W : Type 0) (tasks : Tasks R W)
      → HandlerPushes W tasks.index_snippet
      → HandlerPushes W tasks.cleanup_expired
      → HandlerPushes W tasks.remove_index
      → HandlerPushes W tasks.recover_stuck_jobs
      → HandlerPushes W tasks.flush_views_to_db
      → OnlyPush R settings lists W tasks
  handlers-OnlyPush W tasks index cleanup remove recover flush job s w =
      let p = job.payload in
      run_task-dispatch R W tasks job (s, w) (λ x. Pushes R settings s x.1.0) (index p s w)
        (cleanup p s w) (remove p s w) (recover p s w) (flush p s w) ([], refl)

  module _ (I : IndexStore) (E : ExpiryStore) (V : ViewStore) (B : Backend)
      (around : Surroundings) where
    abbrev tasks : Tasks R (TaskWorld I E V B)
    tasks = all_tasks R I E V B around settings

    -- Whatever the job, its task leaves the jobs that are in the queue.
    pub all_tasks-OnlyPush : OnlyPush R settings lists (TaskWorld I E V B) tasks
    unfolding index_task remove_task cleanup_task stuck_task flush_task cleanup_expired
        flush_views_to_db
    all_tasks-OnlyPush job s w =
        handlers-OnlyPush (TaskWorld I E V B) tasks (λ p s w. ([], refl))
          (λ p s w. Pushes-enqueue R settings _ _ _ _ _ (pos 3) s) (λ p s w. ([], refl))
          (λ p s w. Pushes-recover_stuck_jobs _ _ s)
          (λ p s w. Pushes-enqueue R settings _ _ _ _ _ (pos 3) s) job s w
