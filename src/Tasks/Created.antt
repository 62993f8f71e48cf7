-- ===== src/Tasks/Created.antt =====
-- From `create_snippet` to the index: the job that it enqueues, and the worker that runs it.
use swiftpaste.Prelude.{ℕ, suc, String, ◌≡◌, refl, sym, ap, ◌∙◌, true, [], str_append, inl, inr}
use text.Mathlib.TextPositions.{eq_refl}
use swiftpaste.Prelude.Int.{ℤ, pos}
use swiftpaste.Prelude.Lists.{length}
use swiftpaste.Core.Config.{Settings}
use swiftpaste.Core.Errors.{Result, ok}
use swiftpaste.Models.{User, SnippetCreate, SnippetResponse}
use swiftpaste.Jobs.Store.{JobPayload, JobStore, snippet_fields}
use swiftpaste.Jobs.Queue.{new_job, enqueue}
use swiftpaste.Jobs.Worker.{run_task, settle, worker}
use swiftpaste.Jobs.Retry.{HasDistinctLists}
use swiftpaste.Jobs.Backlog.{items-enqueue, job_is_reached}
use swiftpaste.Snippets.Backend.{Backend}
use swiftpaste.Snippets.Common.{World}
use swiftpaste.Snippets.Create.{Draw, create_snippet}
use swiftpaste.Snippets.Creates.{create_is_atomic}
use swiftpaste.Search.{IndexStore, has, index_key, tokenize, add_all, index_snippet}
use swiftpaste.Search.Index.{has-distinct, is_member-add_all}
use swiftpaste.Expiry.{ExpiryStore}
use swiftpaste.Views.{ViewStore}
use swiftpaste.Tasks.{TaskWorld, Surroundings, index_task, all_tasks}
use swiftpaste.Tasks.Pushes.{all_tasks-OnlyPush}

module _ (R : JobStore) (settings : Settings) (lists : HasDistinctLists settings) (I : IndexStore)
    (E : ExpiryStore) (V : ViewStore) (B : Backend) (around : Surroundings) where
  open R use {Store, dumps, items}

  -- The worker with the five tasks.
  abbrev pub work : ℕ → Store × TaskWorld I E V B → Store × TaskWorld I E V B
  work rounds x =
      worker R (TaskWorld I E V B) settings (all_tasks R I E V B around settings) rounds x

  -- A job that is enqueued at once is run when the ones before it have been.
  pub enqueued_is_run :
      (uuid : String) (now : ℕ) (job_type : String) (payload : JobPayload) (retries : ℤ) (s : Store)
      (w : TaskWorld I E V B)
      → let job = new_job R uuid now job_type payload retries in
        (s' : Store) × (w' : TaskWorld I E V B) × (work
            (suc (length (items s settings.queue)))
            (enqueue R settings uuid now job_type payload 0 retries s, w)
          ≡ settle R
              (TaskWorld I E V B)
              settings
              (dumps job)
              job
              (run_task R (TaskWorld I E V B) (all_tasks R I E V B around settings) job (s', w')))
  enqueued_is_run uuid now job_type payload retries s w =
      job_is_reached R settings lists (TaskWorld I E V B) (all_tasks R I E V B around settings)
        (all_tasks-OnlyPush R settings lists I E V B around) (length (items s settings.queue))
        (new_job R uuid now job_type payload retries) [] (items s settings.queue)
        (enqueue R settings uuid now job_type payload 0 retries s) w
        (items-enqueue R settings uuid now job_type payload retries s) refl

  index_job_adds :
      (uuid : String) (now : ℕ) (id short_id text : String) (retries : ℤ) (s : Store)
      (w : TaskWorld I E V B)
      → let job = new_job R uuid now "index_snippet" (snippet_fields id short_id text) retries in
        (settle R
          (TaskWorld I E V B)
          settings
          (dumps job)
          job
          (run_task R (TaskWorld I E V B) (all_tasks R I E V B around settings) job (s, w))).1.index
        ≡ add_all I around.findall (tokenize around.findall text) short_id w.index
  unfolding run_task settle index_task index_snippet
  index_job_adds uuid now id short_id text retries s w = refl

  tokenized :
      (text t : String)
      → has t (around.findall text) ≡ true
      → has t (tokenize around.findall text) ≡ true
  unfolding tokenize
  tokenized text t said = has-distinct t (around.findall text) ∙ said

  ok_injective : {A : Type 0} {a b : A} → ok a ≡ ok b → a ≡ b
  ok_injective e = cc

  -- The call returns with the short id of the snippet. Once the worker has run the jobs that were in the
  -- queue before it, whatever they are, and one more, the snippet is in the set of every word of its title
  -- and content.
  pub created_is_indexed :
      (uuid : String) (now : ℕ) (first second : Draw) (payload : SnippetCreate) (user : User)
      (w : World B R) {r : SnippetResponse} {w' : World B R} (tw : TaskWorld I E V B) (t : String)
      → create_snippet B R settings uuid now first second payload user w ≡ (ok r, w')
      → has t (around.findall (str_append payload.title (str_append " " payload.content))) ≡ true
      → I.is_member
          (work (suc (length (items w.jobs settings.queue))) (w'.jobs, tw)).1.index
          (index_key t)
          r.short_id
        ≡ true
  created_is_indexed uuid now first second payload user w {r} {w'} tw t created said =
      elim (create_is_atomic B R settings uuid now payload user first second w) [
        | inl (e, raised, _) ↦ absurd (cc (raised, created))
        | inr (draw, _, _, inl (e, _, raised, _)) ↦ absurd (cc (raised, created))
        | inr (draw, _, _, inr (r', _, returned, _, named, jobs)) ↦
            let text = str_append payload.title (str_append " " payload.content) in
            let (s₁, w₁, ran) =
              enqueued_is_run uuid now "index_snippet" (snippet_fields draw.id draw.short_id text)
                (pos 3) w.jobs tw in
            let same : r.short_id ≡ draw.short_id =
              ap (λ (x : SnippetResponse). x.short_id)
                (ok_injective
                  (sym (ap (λ (x : Result SnippetResponse × World B R). x.0) created) ∙ returned))
              ∙ named in
            let jobs' : w'.jobs
                ≡ enqueue R settings uuid now "index_snippet"
                    (snippet_fields draw.id draw.short_id text) 0 (pos 3) w.jobs =
              sym (ap (λ (x : Result SnippetResponse × World B R). x.1.jobs) created) ∙ jobs in
            rw (jobs', ran, same, index_job_adds uuid now draw.id draw.short_id text (pos 3) s₁ w₁)
              (is_member-add_all I around.findall (tokenize around.findall text) draw.short_id
                  w₁.index t draw.short_id
                ∙ rw (tokenized text t said, eq_refl draw.short_id) refl)
      ]
