-- ===== src/Jobs/Places.antt =====
-- Where a job's text is in Redis, and which commands leave it somewhere.
use text.Mathlib.TextPositions.{eq_refl}
use swiftpaste.Prelude.{
  ℕ, ◌+◌, ◌<◌, String, ◌≡◌, refl, ◌⊎◌, true, false, some, List, [], ◌∷◌, arith, ◌==◌, str_eq,
  if◌then◌else◌, Bool-cases, Option-cases, inl, inr,
}
use swiftpaste.Prelude.Int.{ℤ}
use swiftpaste.Prelude.Lists.{last, init, one_if}
use swiftpaste.Core.Config.{Settings}
use swiftpaste.Jobs.Store.{JobPayload, JobStore, remove_first, count}
use swiftpaste.Jobs.Queue.{new_job, enqueue, move_all}
use swiftpaste.Jobs.Retry.{HasDistinctLists}
use swiftpaste.Jobs.Dispatch.{count-move_all, score-move_all, items-move_all}

module _ (R : JobStore) (settings : Settings) (lists : HasDistinctLists settings) where
  open R use {Store, Text, text_eq, text_eq_iff, dumps, items, score, lpush, lrem, brpoplpush}

  -- How often a text is in the queue, among the jobs that are processed or have failed, and scheduled.
  unfoldable pub places : Text → Store → ℕ
  places t s =
      count text_eq t (items s settings.queue)
      + count text_eq t (items s settings.processing)
      + count text_eq t (items s settings.failed)
      + one_if (score s t)

  count-remove_first :
      (t u : Text) (ts : List Text)
      → text_eq u t ≡ false
      → count text_eq u (remove_first text_eq t ts) ≡ count text_eq u ts
  count-remove_first t u [] other = refl
  count-remove_first t u (v ∷ vs) other = ground (
    arith,
    count-remove_first t u vs other,
    other,
    text_eq_iff v t,
    text_eq_iff v u,
    text_eq_iff u t,
  )

  count-init-last :
      (u : Text) (ts : List Text) {t : Text}
      → last ts ≡ some t
      → count text_eq u ts ≡ count text_eq u (init ts) + (if text_eq t u then 1 else 0)
  count-init-last u [] e = cc
  count-init-last u (v ∷ []) e = ground (arith, e)
  count-init-last u (v ∷ w ∷ ws) e = ground (arith, count-init-last u (w ∷ ws) e)

  pub places-lpush :
      (q : String) (t : Text) (s : Store) (u : Text) → 0 < places u s → 0 < places u (lpush q t s)
  unfolding places
  places-lpush q t s u h = simp (R.items-lpush, R.score-lpush) (ground (arith, h))

  pub places-lpush_self :
      (q : String) (t : Text) (s : Store)
      → (str_eq q settings.queue ≡ true) ⊎ (str_eq q settings.failed ≡ true)
      → 0 < places t (lpush q t s)
  unfolding places
  places-lpush_self q t s (inl here) =
      simp (R.items-lpush, here, (text_eq_iff t t).1 refl) (omega arith)
  places-lpush_self q t s (inr here) =
      simp (R.items-lpush, here, (text_eq_iff t t).1 refl) (omega arith)

  pub places-lrem :
      (t : Text) (s : Store) (u : Text)
      → text_eq u t ≡ false
      → places u (lrem settings.processing t s) ≡ places u s
  unfolding places
  places-lrem t s u other = simp (
    R.items-lrem,
    R.score-lrem,
    lists.processing-queue,
    lists.processing-failed,
    eq_refl settings.processing,
    count-remove_first t u (items s settings.processing) other,
  )

  pub places-brpoplpush :
      (s : Store) (u : Text)
      → places u (brpoplpush settings.queue settings.processing s).1 ≡ places u s
  unfolding places
  places-brpoplpush s u = elim (Option-cases (last (items s settings.queue))) [
    | inl empty ↦ simp (
      R.empty-brpoplpush settings.queue settings.processing s settings.queue empty,
      R.empty-brpoplpush settings.queue settings.processing s settings.processing empty,
      R.empty-brpoplpush settings.queue settings.processing s settings.failed empty,
      R.score-brpoplpush,
    )
    | inr (t, here) ↦
        simp
          (
            R.source-brpoplpush settings.queue settings.processing s lists.queue-processing,
            R.target-brpoplpush settings.queue settings.processing s t lists.queue-processing here,
            R.others-brpoplpush settings.queue settings.processing s settings.failed
                lists.queue-failed lists.processing-failed,
            R.score-brpoplpush,
          )
          (ground (arith, count-init-last u (items s settings.queue) here))
  ]

  pub places-enqueue :
      (uuid : String) (now : ℕ) (job_type : String) (payload : JobPayload) (delay : ℕ) (retries : ℤ)
      (s : Store) (u : Text)
      → 0 < places u s
      → 0 < places u (enqueue R settings uuid now job_type payload delay retries s)
  unfolding enqueue
  places-enqueue uuid now job_type payload delay retries s u h = elim (Bool-cases (delay == 0)) [
    | inl at_once ↦ rw at_once (places-lpush _ _ s u h)
    | inr later ↦ rw later (places-zadd _ _ s u h)
  ]
    where
      places-zadd :
          (t : Text) (n : ℕ) (s : Store) (u : Text) → 0 < places u s → 0 < places u (R.zadd t n s)
      places-zadd t n s u h = unfold places in simp (R.items-zadd, R.score-zadd) (ground (arith, h))

  pub places-enqueue_self :
      (uuid : String) (now : ℕ) (job_type : String) (payload : JobPayload) (delay : ℕ) (retries : ℤ)
      (s : Store)
      → 0
        < places
            (dumps (new_job R uuid now job_type payload retries))
            (enqueue R settings uuid now job_type payload delay retries s)
  unfolding enqueue
  places-enqueue_self uuid now job_type payload delay retries s =
      let t = dumps (new_job R uuid now job_type payload retries) in
      elim (Bool-cases (delay == 0)) [
        | inl at_once ↦
            rw at_once (places-lpush_self settings.queue t s (inl (eq_refl settings.queue)))
        | inr later ↦ rw later (
            unfold places in
            simp (R.items-zadd, R.score-zadd, (text_eq_iff t t).1 refl) (omega arith))
      ]

  pub places-move_all :
      (ts : List Text) (s : Store) (u : Text)
      → 0 < places u s
      → 0 < places u (move_all R settings ts s)
  unfolding places
  places-move_all ts s u h =
      simp
        (
          items-move_all R settings ts s settings.processing lists.queue-processing,
          items-move_all R settings ts s settings.failed lists.queue-failed,
          count-move_all R settings ts s u,
          score-move_all R settings ts s u,
        )
        (ground (arith, h))
