-- ===== src/Jobs/Examples.antt =====
-- One worker and one job, up to the gap between the removal of a failed job and its push.
use swiftpaste.Prelude.{◌≡◌, refl, [], ◌∷◌, str_eq, if◌then◌else◌}
use swiftpaste.Prelude.Int.{pos, ◌-ℤ◌}
use swiftpaste.Core.Config.{defaults}
use swiftpaste.Jobs.Store.{Job, no_fields}
use swiftpaste.Jobs.Model.{json, memory}
use swiftpaste.Jobs.Queue.{new_job, enqueue}
use swiftpaste.Jobs.Interleaved.{
  idle, running, raised, dropped, System, put, takes, raises, drops, pushes, Steps, at_start, later,
}
use swiftpaste.Jobs.Kept.{IsKept}
use swiftpaste.Jobs.Conserved.{no_job_is_lost}
use swiftpaste.Jobs.Tests.{defaults-HasDistinctLists}

-- The queue is empty, and every process waits.
abbrev quiet : System memory
quiet = record { store = record { lists = λ k. []; zset = [] }; hands = λ k. idle; finished = [] }

abbrev first_job : Job
first_job = new_job memory "n" 5000 "unknown" no_fields (pos 3)

abbrev retried_job : Job
retried_job = record first_job { retries = pos 2 }

abbrev enqueued : System memory
enqueued = record quiet {
  store = record { lists = λ k. if str_eq "jobs" k then json first_job ∷ [] else []; zset = [] };
}

-- A worker takes the job, its task raises, and the job is off the processing list and not yet pushed.
abbrev in_the_gap : System memory
in_the_gap = record {
  store =
      memory.lrem "processing" (json first_job)
        (memory.brpoplpush "jobs" "processing" enqueued.store).1;
  hands = put memory 0 (dropped retried_job) (
      put memory 0 (raised (json first_job)) (put memory 0 (running (json first_job)) quiet.hands));
  finished = [];
}

abbrev into_the_gap : Steps memory defaults enqueued in_the_gap
unfolding ◌-ℤ◌
into_the_gap =
    later (later (later at_start (takes 0 refl)) (raises 0 (json first_job) refl))
      (drops 0 (json first_job) first_job refl refl)

no_job_is_lost_example : IsKept memory defaults defaults-HasDistinctLists "n" (record in_the_gap {
  store = memory.lpush "jobs" (json retried_job) in_the_gap.store;
  hands = put memory 0 idle in_the_gap.hands;
})
unfolding enqueue ◌-ℤ◌
no_job_is_lost_example =
    no_job_is_lost memory defaults defaults-HasDistinctLists "n" 5000 "unknown" no_fields 0 (pos 3)
      quiet (later into_the_gap (pushes 0 retried_job refl))

-- There the job is in none of the lists: a worker that dies now takes it along.
nothing_in_redis :
    (memory.items in_the_gap.store "jobs" ≡ [])
    × (memory.items in_the_gap.store "processing" ≡ [])
    × (memory.items in_the_gap.store "failed" ≡ [])
nothing_in_redis =
    (refl, rw ((memory.text_eq_iff (json first_job) (json first_job)).1 refl) refl, refl)
