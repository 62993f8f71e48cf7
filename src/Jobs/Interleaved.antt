-- ===== src/Jobs/Interleaved.antt =====
-- Any number of processes of app/jobs/worker.py and app/jobs/scheduler.py over one Redis: what each of them
-- holds between two commands, and the commands in any order.
use swiftpaste.Prelude.{
  ℕ, String, ◌≡◌, true, false, Option, none, some, List, [], ◌∷◌, ◌==◌, if◌then◌else◌,
}
use swiftpaste.Prelude.Int.{ℤ, pos, ◌-ℤ◌, ltb_ℤ}
use swiftpaste.Core.Config.{Settings}
use swiftpaste.Jobs.Store.{Job, JobPayload, JobStore}
use swiftpaste.Jobs.Queue.{seconds, enqueue, move_all}
use swiftpaste.Jobs.Recover.{is_stuck}

module _ (R : JobStore) where
  open R use {Store, Text}

  -- A process between two commands. A worker waits, runs the task of a text, has had its task return or
  -- raise, or has taken a failed job off the processing list and not yet pushed it. `recover_stuck_jobs`
  -- goes through the texts that LRANGE has listed, and holds a job between its LREM and its LPUSH. The
  -- scheduler has read the jobs that are due.
  pub data Hand : Type 0 where
    idle : Hand
    running : Text → Hand
    returned : Text → Hand
    raised : Text → Hand
    dropped : Job → Hand
    recovering : Text → List Text → Hand
    requeueing : Text → Job → List Text → Hand
    dispatching : List Text → Hand

  -- `finished` are the ids of the jobs whose task has returned and that have been acknowledged.
  pub record System : Type 0 where
    pub store : Store
    pub hands : ℕ → Hand
    pub finished : List String

  abbrev pub put : ℕ → Hand → (ℕ → Hand) → ℕ → Hand
  put k h hands j = if k == j then h else hands j

  -- What BRPOPLPUSH hands over.
  abbrev pub taken : Option Text → Hand
  taken none = idle
  taken (some t) = running t

  -- The job that a process holds in memory only, to push it.
  abbrev pub in_memory_only : Hand → Option Job
  in_memory_only idle = none
  in_memory_only (running t) = none
  in_memory_only (returned t) = none
  in_memory_only (raised t) = none
  in_memory_only (dropped job) = some job
  in_memory_only (recovering t ts) = none
  in_memory_only (requeueing t job ts) = some job
  in_memory_only (dispatching ts) = none

module _ (R : JobStore) (settings : Settings) where
  open R use {Store, Text, dumps, loads, items, lpush, lrem, brpoplpush, zrangebyscore}

  -- `retries > 0`
  abbrev pub list_after_failure : Job → String
  list_after_failure job = if ltb_ℤ (pos 0) job.retries then settings.queue else settings.failed

  -- `job["retries"] = job.get("retries", 3) - 1`
  abbrev pub with_one_retry_less : Job → Job
  with_one_retry_less job = record job { retries = job.retries -ℤ pos 1 }

  -- `job["processing_started_at"] = now`
  abbrev pub stamped : ℕ → Job → Job
  stamped now job = record job { processing_started_at = some now }

  -- One command of one process, or the end of its task. A task may enqueue jobs meanwhile, as may the
  -- requests. A process that dies leaves Redis as it is.
  pub data Step (x : System R) : System R → Type 0 where
    takes :
        (k : ℕ)
        → x.hands k ≡ idle
        → Step x (record x {
          store = (brpoplpush settings.queue settings.processing x.store).1;
          hands =
              put R k (taken R (brpoplpush settings.queue settings.processing x.store).0) x.hands;
        })
    discards :
        (k : ℕ) (t : Text)
        → x.hands k ≡ running t
        → loads t ≡ none
        → Step x
            (record x { store = lrem settings.processing t x.store; hands = put R k idle x.hands })
    returns :
        (k : ℕ) (t : Text)
        → x.hands k ≡ running t
        → Step x (record x { hands = put R k (returned t) x.hands })
    raises :
        (k : ℕ) (t : Text)
        → x.hands k ≡ running t
        → Step x (record x { hands = put R k (raised t) x.hands })
    acknowledges :
        (k : ℕ) (t : Text) (job : Job)
        → x.hands k ≡ returned t
        → loads t ≡ some job
        → Step x (record {
          store = lrem settings.processing t x.store;
          hands = put R k idle x.hands;
          finished = job.id ∷ x.finished;
        })
    drops :
        (k : ℕ) (t : Text) (job : Job)
        → x.hands k ≡ raised t
        → loads t ≡ some job
        → Step x (record x {
          store = lrem settings.processing t x.store;
          hands = put R k (dropped (with_one_retry_less job)) x.hands;
        })
    pushes :
        (k : ℕ) (job : Job)
        → x.hands k ≡ dropped job
        → Step x (record x {
          store = lpush (list_after_failure job) (dumps job) x.store;
          hands = put R k idle x.hands;
        })
    recovers :
        (k : ℕ) (t : Text)
        → x.hands k ≡ running t
        → Step x (record x {
          hands = put R k (recovering t (items x.store settings.processing)) x.hands;
        })
    skips :
        (k now : ℕ) (t u : Text) (ts : List Text) (job : Job)
        → x.hands k ≡ recovering t (u ∷ ts)
        → loads u ≡ some job
        → is_stuck now job ≡ false
        → Step x (record x { hands = put R k (recovering t ts) x.hands })
    removes :
        (k now : ℕ) (t u : Text) (ts : List Text) (job : Job)
        → x.hands k ≡ recovering t (u ∷ ts)
        → loads u ≡ some job
        → is_stuck now job ≡ true
        → Step x (record x {
          store = lrem settings.processing u x.store;
          hands = put R k (requeueing t (stamped now job) ts) x.hands;
        })
    requeues :
        (k : ℕ) (t : Text) (job : Job) (ts : List Text)
        → x.hands k ≡ requeueing t job ts
        → Step x (record x {
          store = lpush settings.queue (dumps job) x.store;
          hands = put R k (recovering t ts) x.hands;
        })
    recovery_raises :
        (k : ℕ) (t u : Text) (ts : List Text)
        → x.hands k ≡ recovering t (u ∷ ts)
        → loads u ≡ none
        → Step x (record x { hands = put R k (raised t) x.hands })
    recovered :
        (k : ℕ) (t : Text)
        → x.hands k ≡ recovering t []
        → Step x (record x { hands = put R k (returned t) x.hands })
    reads_due :
        (k now : ℕ)
        → x.hands k ≡ idle
        → Step x (record x {
          hands = put R k (dispatching (zrangebyscore (seconds now) x.store)) x.hands;
        })
    moves :
        (k : ℕ) (ts : List Text)
        → x.hands k ≡ dispatching ts
        → Step x (record x { store = move_all R settings ts x.store; hands = put R k idle x.hands })
    enqueues :
        (uuid : String) (now : ℕ) (job_type : String) (payload : JobPayload) (delay : ℕ)
        (retries : ℤ)
        → Step x (record x {
          store = enqueue R settings uuid now job_type payload delay retries x.store;
        })
    -- not while it holds a job in memory only
    dies :
        (k : ℕ)
        → in_memory_only R (x.hands k) ≡ none
        → Step x (record x { hands = put R k idle x.hands })

  pub data Steps (x : System R) : System R → Type 0 where
    at_start : Steps x x
    later : {y z : System R} → Steps x y → Step y z → Steps x z
