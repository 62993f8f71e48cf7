-- ===== src/Tasks/Deleted.antt =====
-- From `delete_snippet` to the index and the cache: what the worker leaves of a deleted snippet.
use text.Mathlib.TextLemmas.{append_assoc}
use text.Mathlib.TextPositions.{eq_refl}
use swiftpaste.Prelude.{
  ℕ, suc, String, ◌≡◌, refl, sym, ap, ◌∙◌, false, ◌&&◌, Option, none, some, str_append, arith,
  Bool-cases, inl, inr,
}
use swiftpaste.Prelude.Int.{pos}
use swiftpaste.Prelude.Text.{decimal}
use swiftpaste.Prelude.Lists.{length}
use swiftpaste.Core.Config.{Settings}
use swiftpaste.Core.Errors.{err, app}
use swiftpaste.Models.{Snippet, User, mark_deleted}
use swiftpaste.Jobs.Store.{JobStore, snippet_fields}
use swiftpaste.Jobs.Queue.{new_job}
use swiftpaste.Jobs.Worker.{run_task, settle}
use swiftpaste.Jobs.Retry.{HasDistinctLists}
use swiftpaste.Jobs.Keeps.{worker-keeps}
use swiftpaste.Snippets.Backend.{Backend}
use swiftpaste.Snippets.Common.{World, cache_key, snippet_not_found, select_owned}
use swiftpaste.Snippets.View.{snippet_out_view, get_snippet_cached}
use swiftpaste.Snippets.Caching.{read_through}
use swiftpaste.Snippets.Delete.{content_text, delete_snippet}
use swiftpaste.Snippets.Versions.{by_short_id-change}
use swiftpaste.Snippets.Shares.{deleted, delete_owned}
use swiftpaste.Search.{IndexStore, has, index_key, cache_prefix, tokenize, remove_all, remove_index}
use swiftpaste.Search.Index.{
  has-distinct, is_member-remove_all, is_member-delete_all, cached-remove_index,
}
use swiftpaste.Expiry.{ExpiryStore}
use swiftpaste.Views.{ViewStore}
use swiftpaste.Tasks.{TaskWorld, Surroundings, remove_task, all_tasks}
use swiftpaste.Tasks.Created.{work, enqueued_is_run}
use swiftpaste.Tasks.Hidden.{IsHidden, all_tasks-IsHidden}

-- The strings that the tasks delete are those that the service reads: what the sets' Redis does not hold, the
-- cache does not give; and SCAN lists every key that is there and has the prefix.
pub record SharedRedis (I : IndexStore) (B : Backend) : Type 0 where
  pub cache_of : I.Store → B.Cache
  pub nothing_cached :
      (s : I.Store) (k : String) → I.cached s k ≡ none → B.cached (cache_of s) k ≡ none
  pub scan_finds :
      (s : I.Store) (prefix rest : String)
      → has (str_append prefix rest) (I.scan_iter s prefix) ≡ false
      → I.cached s (str_append prefix rest) ≡ none

abbrev version_str : Option ℕ → String
version_str version = elim version [ none ↦ "latest" | some n ↦ decimal n ]

key-prefix :
    (short_id : String) (version : Option ℕ)
    → cache_key short_id version ≡ str_append (cache_prefix short_id) (version_str version)
unfolding cache_key
key-prefix short_id version = sym (
    append_assoc "snippet:" (str_append short_id ":v") (version_str version)
    ∙ ap (str_append "snippet:") (append_assoc short_id ":v" (version_str version)))

module _ (R : JobStore) (settings : Settings) (lists : HasDistinctLists settings) (I : IndexStore)
    (E : ExpiryStore) (V : ViewStore) (B : Backend) (around : Surroundings) where
  open R use {Store, dumps, items}

  remove_job_drops :
      (uuid : String) (now : ℕ) (id short_id text : String) (s : Store) (w : TaskWorld I E V B)
      → let job =
          new_job R uuid now "remove_snippet_index" (snippet_fields id short_id text) (pos 3) in
        (settle R
          (TaskWorld I E V B)
          settings
          (dumps job)
          job
          (run_task R (TaskWorld I E V B) (all_tasks R I E V B around settings) job (s, w))).1.index
        ≡ (remove_index I around.findall (snippet_fields id short_id text) w.index).1
  unfolding run_task settle remove_task remove_index
  remove_job_drops uuid now id short_id text s w = refl

  removed_from_word :
      (id short_id text t : String) (s : I.Store)
      → (has t (around.findall text)
          && I.is_member
              (remove_index I around.findall (snippet_fields id short_id text) s).1
              (index_key t)
              short_id)
        ≡ false
  unfolding remove_index tokenize
  removed_from_word id short_id text t s =
      let s' = remove_all I around.findall (tokenize around.findall text) short_id s in
      ground (
        arith,
        is_member-delete_all I around.findall (I.scan_iter s (cache_prefix short_id)) s'
            (index_key t) short_id,
        is_member-remove_all I around.findall (tokenize around.findall text) short_id s t short_id,
        has-distinct t (around.findall text),
        eq_refl short_id,
      )

  module _ (shared : SharedRedis I B) where
    removed_from_cache :
        (id short_id text : String) (version : Option ℕ) (s : I.Store)
        → B.cached
            (shared.cache_of (remove_index I around.findall (snippet_fields id short_id text) s).1)
            (cache_key short_id version)
          ≡ none
    removed_from_cache id short_id text version s =
        let p = cache_prefix short_id in
        let key = str_append p (version_str version) in
        rw (key-prefix short_id version) (
          shared.nothing_cached _ key (
            cached-remove_index I around.findall id short_id text s key
            ∙ elim (Bool-cases (has key (I.scan_iter s p))) [
              | inl listed ↦ rw listed refl
              | inr not_listed ↦
                  rw not_listed (shared.scan_finds s p (version_str version) not_listed)
            ]))

    -- What the service reads beside the tables and the cache of the task world.
    abbrev pub as_read : World B R → TaskWorld I E V B → World B R
    as_read w tw = record w { db = tw.db; cache = shared.cache_of tw.index }

    -- An author has deleted a snippet that its short id finds. Once the worker, on the tables that the
    -- call has left, has run the jobs that were in the queue before it, whatever they are, and one more:
    -- a read of the short id says that there is no such snippet, to every caller, at every time and for
    -- every version, whatever was cached; and no word of the title and the latest content has the
    -- snippet in its set.
    pub deleted_goes_dark :
        (uuid : String) (now : ℕ) (user : User) (w : World B R) (x : Snippet)
        (tw : TaskWorld I E V B)
        → select_owned B w.db x.id user ≡ some x
        → B.by_short_id w.db x.short_id ≡ some x
        → tw.db ≡ (delete_snippet B R settings uuid now x.id user w).1.db
        → let w' = (delete_snippet B R settings uuid now x.id user w).1 in
          let rounds = suc (length (items w.jobs settings.queue)) in
          let tw' = (work R settings lists I E V B around rounds (w'.jobs, tw)).1 in
          let content = content_text (B.version_row w.db x.id x.version_counter) in
          ((version : Option ℕ) (caller : Option User) (t : ℕ)
            → (get_snippet_cached B R settings x.short_id version caller t (as_read w' tw')).0
              ≡ err (app (snippet_not_found "Snippet or requested version not found")))
          × ((t : String)
              → (has t (around.findall (str_append x.title (str_append " " content)))
                  && I.is_member tw'.index (index_key t) x.short_id)
                ≡ false)
    unfolding snippet_out_view
    deleted_goes_dark uuid now user w x tw owned short same =
        let content = content_text (B.version_row w.db x.id x.version_counter) in
        let text = str_append x.title (str_append " " content) in
        let w' = deleted B R settings uuid now x w in
        let rounds = suc (length (items w.jobs settings.queue)) in
        let (_, tw') = work R settings lists I E V B around rounds (w'.jobs, tw) in
        let (s₁, w₁, ran) =
          enqueued_is_run R settings lists I E V B around uuid now "remove_snippet_index"
            (snippet_fields x.id x.short_id text) (pos 3) w.jobs tw in
        let gone = delete_owned B R settings uuid now user w x owned in
        let index : tw'.index
            ≡ (remove_index I around.findall (snippet_fields x.id x.short_id text) w₁.index).1 =
          ap (λ (p : Store × TaskWorld I E V B). p.1.index) ran
          ∙ remove_job_drops uuid now x.id x.short_id text s₁ w₁ in
        let hidden : IsHidden B x.short_id tw'.db =
          worker-keeps R settings (TaskWorld I E V B) (all_tasks R I E V B around settings)
            (λ w. IsHidden B x.short_id w.db)
            (all_tasks-IsHidden R settings I E V B around x.short_id) rounds w'.jobs tw
            (rw (same, gone, by_short_id-change B w.db x (mark_deleted now) short) refl) in
        rw gone (
          λ version caller t.
              (read_through B R settings x.short_id version caller t (as_read w' tw')
                (rw index (removed_from_cache x.id x.short_id text version w₁.index))).0
              ∙ rw (hidden, snippet_out_view) refl,
          λ t. rw index (removed_from_word x.id x.short_id text t w₁.index),
        )
