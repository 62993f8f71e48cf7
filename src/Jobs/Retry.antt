-- ===== src/Jobs/Retry.antt =====
-- What a round of the worker does to the three lists, and where a job that keeps failing ends.
use text.Mathlib.TextPositions.{eq_refl}
use swiftpaste.Prelude.{
  ℕ, zero, suc, ◌≡◌, refl, false, some, List, [], ◌∷◌, arith, ap, ◌∙◌, str_eq, if◌then◌else◌,
  Bool-cases, inl, inr,
}
use swiftpaste.Prelude.Int.{pos, ◌-ℤ◌, ltb_ℤ}
use swiftpaste.Core.Config.{Settings}
use swiftpaste.Core.Errors.{Failure, Result, ok, err}
use swiftpaste.Prelude.Lists.{last, init}
use swiftpaste.Jobs.Store.{Job, JobStore, remove_first}
use swiftpaste.Jobs.Worker.{Tasks, run_task, job_failed, settle, process, worker_round, worker}

-- The three lists have names of their own.
pub record HasDistinctLists (settings : Settings) : Type 0 where
  pub queue-processing : str_eq settings.queue settings.processing ≡ false
  pub processing-queue : str_eq settings.processing settings.queue ≡ false
  pub queue-failed : str_eq settings.queue settings.failed ≡ false
  pub failed-queue : str_eq settings.failed settings.queue ≡ false
  pub processing-failed : str_eq settings.processing settings.failed ≡ false
  pub failed-processing : str_eq settings.failed settings.processing ≡ false

-- The three lists, in one value.
pub record Lists (Text : Type 0) : Type 0 where
  pub queue : List Text
  pub processing : List Text
  pub failed : List Text

module _ (R : JobStore) (settings : Settings) where
  open R use {Store, Text, dumps, items}

  abbrev pub lists_of : Store → Lists Text
  lists_of s = record {
    queue = items s settings.queue;
    processing = items s settings.processing;
    failed = items s settings.failed;
  }

  -- The lists after a job that raised: one retry less, in the queue or among the failed ones.
  abbrev pub after_failure : Job → Lists Text → Lists Text
  after_failure job l =
      let retries = job.retries -ℤ pos 1 in
      let again = dumps (record job { retries = retries }) in
      if ltb_ℤ (pos 0) retries
      then record l { queue = again ∷ l.queue }
      else record l { failed = again ∷ l.failed }

-- With two retries or more the job goes back into the queue.
still_retried :
    (R : JobStore) (settings : Settings) (n : ℕ) (job : Job) (l : Lists R.Text)
    → after_failure R settings (record job { retries = pos (suc (suc n)) }) l
      ≡ record l { queue = R.dumps (record job { retries = pos (suc n) }) ∷ l.queue }
unfolding ◌-ℤ◌
still_retried R settings n job l = ground arith

-- A round hands the last text of the queue to its handler.
pub worker_round_picks :
    (R : JobStore) (settings : Settings) (W : Type 0) (tasks : Tasks R W) (s : R.Store) (w : W)
    (t : R.Text) (job : Job)
    → last (R.items s settings.queue) ≡ some t
    → R.loads t ≡ some job
    → worker_round R W settings tasks (s, w)
      ≡ settle R W settings t job
          (run_task R W tasks job ((R.brpoplpush settings.queue settings.processing s).1, w))
unfolding worker_round process
worker_round_picks R settings W tasks s w t job here parsed =
    rw (
      R.popped-brpoplpush settings.queue settings.processing s,
      here,
      parsed,
      worker_round,
      process,
    )

module _ (R : JobStore) (settings : Settings) (lists : HasDistinctLists settings) where
  open R use {Store, Text, text_eq, text_eq_iff, dumps, items, lrem, lpush}

  remove_first_head : (t : Text) (ts : List Text) → remove_first text_eq t (t ∷ ts) ≡ ts
  remove_first_head t ts = rw ((text_eq_iff t t).1 refl)

  lists_of-lpush_queue :
      (t : Text) (s : Store)
      → lists_of R settings (lpush settings.queue t s)
        ≡ record (lists_of R settings s) { queue = t ∷ items s settings.queue }
  lists_of-lpush_queue t s =
      simp (R.items-lpush, lists.queue-processing, lists.queue-failed, eq_refl)

  lists_of-lpush_failed :
      (t : Text) (s : Store)
      → lists_of R settings (lpush settings.failed t s)
        ≡ record (lists_of R settings s) { failed = t ∷ items s settings.failed }
  lists_of-lpush_failed t s =
      simp (R.items-lpush, lists.failed-processing, lists.failed-queue, eq_refl)

  lists_of-brpoplpush :
      (t : Text) (s : Store)
      → last (items s settings.queue) ≡ some t
      → lists_of R settings (R.brpoplpush settings.queue settings.processing s).1
        ≡ record (lists_of R settings s) {
          queue = init (items s settings.queue);
          processing = t ∷ items s settings.processing;
        }
  lists_of-brpoplpush t s e = rw (
    R.source-brpoplpush settings.queue settings.processing s lists.queue-processing,
    R.target-brpoplpush settings.queue settings.processing s t lists.queue-processing e,
    R.others-brpoplpush settings.queue settings.processing s settings.failed lists.queue-failed
        lists.processing-failed,
  )

  lists_of-lrem :
      (t : Text) (s : Store) (l : Lists Text)
      → lists_of R settings s ≡ record l { processing = t ∷ l.processing }
      → lists_of R settings (lrem settings.processing t s) ≡ l
  lists_of-lrem t s l e =
      simp (R.items-lrem, lists.processing-queue, lists.processing-failed, eq_refl)
        (cc (
          ap (λ (x : Lists Text). x.queue) e,
          ap (λ (x : Lists Text). x.failed) e,
          ap (λ (x : Lists Text). remove_first text_eq t x.processing) e,
          remove_first_head t l.processing,
        ))

  lists_of-job_failed :
      (t : Text) (job : Job) (s : Store) (l : Lists Text)
      → lists_of R settings s ≡ record l { processing = t ∷ l.processing }
      → lists_of R settings (job_failed R settings t job s) ≡ after_failure R settings job l
  unfolding job_failed
  lists_of-job_failed t job s l e =
      let again = dumps (record job { retries = job.retries -ℤ pos 1 }) in
      let dropped = lists_of-lrem t s l e in
      elim (Bool-cases (ltb_ℤ (pos 0) (job.retries -ℤ pos 1))) [
        | inl more ↦ rw more (
            lists_of-lpush_queue again (lrem settings.processing t s)
            ∙ ap (λ (x : Lists Text). record x { queue = again ∷ x.queue }) dropped)
        | inr last_one ↦ rw last_one (
            lists_of-lpush_failed again (lrem settings.processing t s)
            ∙ ap (λ (x : Lists Text). record x { failed = again ∷ x.failed }) dropped)
      ]

  abbrev pub after_task : Result (Unit {0}) → Job → Lists Text → Lists Text
  after_task (ok _) job l = l
  after_task (err _) job l = after_failure R settings job l

  -- The lists that the job meets once BRPOPLPUSH has handed it over.
  abbrev pub without_last : Lists Text → Lists Text
  without_last l = record l { queue = init l.queue }

  module _ (W : Type 0) (tasks : Tasks R W) where
    lists_of-settle :
        (t : Text) (job : Job) (r : Result (Unit {0})) (s : Store) (w : W) (l : Lists Text)
        → lists_of R settings s ≡ record l { processing = t ∷ l.processing }
        → lists_of R settings (settle R W settings t job (r, (s, w))).0 ≡ after_task r job l
    unfolding settle
    lists_of-settle t job (ok _) s w l e = lists_of-lrem t s l e
    lists_of-settle t job (err _) s w l e = lists_of-job_failed t job s l e

    -- One round with a job at the end of the queue whose handler leaves the three lists alone: the job
    -- leaves the queue, nothing stays behind in the processing list, and if the handler raised, the job
    -- is back in the queue with one retry less, or in the failed list if that leaves no retry.
    pub round_settles_job :
        (t : Text) (job : Job) (s : Store) (w : W) {r : Result (Unit {0})} {s₂ : Store} {w₂ : W}
        → last (items s settings.queue) ≡ some t
        → R.loads t ≡ some job
        → run_task R W tasks job ((R.brpoplpush settings.queue settings.processing s).1, w)
          ≡ (r, (s₂, w₂))
        → lists_of R settings s₂
          ≡ lists_of R settings (R.brpoplpush settings.queue settings.processing s).1
        → lists_of R settings (worker_round R W settings tasks (s, w)).0
          ≡ after_task r job (without_last (lists_of R settings s))
    round_settles_job t job s w {r} {s₂} {w₂} here parsed ran kept =
        rw (worker_round_picks R settings W tasks s w t job here parsed, ran)
          (lists_of-settle t job r s₂ w₂ (without_last (lists_of R settings s))
            (kept ∙ lists_of-brpoplpush t s here))

    -- One round with a failing job alone in the queue.
    failing_round :
        (job : Job) (n : ℕ) (s : Store) (w : W)
        → ((k : ℕ) (x : Store) (y : W)
            → (e : Failure) × (run_task R W tasks (record job { retries = pos k }) (x, y)
                ≡ (err e, (x, y))))
        → items s settings.queue ≡ dumps (record job { retries = pos (suc n) }) ∷ []
        → lists_of R settings (worker_round R W settings tasks (s, w)).0
          ≡ after_failure R settings
              (record job { retries = pos (suc n) })
              (record (lists_of R settings s) { queue = [] })
    failing_round job n s w raises alone =
        let s₁ = (R.brpoplpush settings.queue settings.processing s).1 in
        let failing = raises (suc n) s₁ w in
        round_settles_job (dumps (record job { retries = pos (suc n) }))
          (record job { retries = pos (suc n) }) s w (ap last alone)
          (R.loads-dumps (record job { retries = pos (suc n) })) failing.1 refl
        ∙ ap
            (λ (ts : List Text).
              after_failure R settings (record job { retries = pos (suc n) })
                (record (lists_of R settings s) { queue = init ts }))
            alone

    -- A job whose handler raises every time and leaves the stores as they are, whatever its retries:
    -- alone in the queue with `n + 1` retries, it is among the failed ones after `n + 1` rounds, and
    -- the queue is empty.
    pub retries_end_in_failed :
        (n : ℕ) (job : Job) (s : Store) (w : W)
        → ((k : ℕ) (x : Store) (y : W)
            → (e : Failure) × (run_task R W tasks (record job { retries = pos k }) (x, y)
                ≡ (err e, (x, y))))
        → items s settings.queue ≡ dumps (record job { retries = pos (suc n) }) ∷ []
        → lists_of R settings (worker R W settings tasks (suc n) (s, w)).0
          ≡ record (lists_of R settings s) {
            queue = [];
            failed = dumps (record job { retries = pos 0 }) ∷ items s settings.failed;
          }
    unfolding worker
    retries_end_in_failed zero job s w raises alone =
        unfold ◌-ℤ◌ in failing_round job zero s w raises alone
    retries_end_in_failed (suc n) job s w raises alone =
        let (s', w') = worker_round R W settings tasks (s, w) in
        let step =
          failing_round job (suc n) s w raises alone
          ∙ still_retried R settings n job (record (lists_of R settings s) { queue = [] }) in
        retries_end_in_failed n job s' w' raises (ap (λ (x : Lists Text). x.queue) step)
        ∙ ap
            (λ (x : Lists Text). record x {
              queue = [];
              failed = dumps (record job { retries = pos 0 }) ∷ x.failed;
            })
            step
