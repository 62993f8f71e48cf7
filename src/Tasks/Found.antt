-- ===== src/Tasks/Found.antt =====
-- From `create_snippet` to a search that shows the snippet.
use swiftpaste.Prelude.{
  ℕ, suc, ◌≢◌, String, ◌≡◌, refl, Bool, true, false, ◌&&◌, Option, none, List, [], ◌∷◌, str_append,
  arith,
}
use text.Mathlib.TextPositions.{eq_refl}
use swiftpaste.Prelude.Lists.{length}
use swiftpaste.Core.Config.{Settings}
use swiftpaste.Core.Errors.{ok}
use swiftpaste.Models.{Snippet, SnippetVersion, User, SnippetCreate, SnippetResponse}
use swiftpaste.Jobs.Store.{JobStore}
use swiftpaste.Jobs.Retry.{HasDistinctLists}
use swiftpaste.Snippets.Backend.{Backend}
use swiftpaste.Snippets.Common.{World}
use swiftpaste.Snippets.View.{is_private, is_none}
use swiftpaste.Snippets.Create.{Draw, create_snippet}
use swiftpaste.Search.{IndexStore, has, index_key, tokenize}
use swiftpaste.Search.Results.{
  Params, PageStore, Finder, Texts, all, result_key, index_keys, search_snippets,
}
use swiftpaste.Search.Finds.{HaveContents, IsAmong, Finds, search-Finds}
use swiftpaste.Expiry.{ExpiryStore}
use swiftpaste.Views.{ViewStore}
use swiftpaste.Tasks.{TaskWorld, Surroundings}
use swiftpaste.Tasks.Created.{work, created_is_indexed}

-- What holds of the key of each word holds of all of them.
all-index_keys :
    (p : String → Bool) (ts : List String)
    → ((t : String) → has t ts ≡ true → p (index_key t) ≡ true)
    → all p (index_keys ts) ≡ true
all-index_keys p [] each = refl
all-index_keys p (t ∷ ts) each =
    rw (each t (rw (eq_refl t) refl))
      (all-index_keys p ts (λ u there. each u (ground (arith, there))))

module _ (R : JobStore) (settings : Settings) (lists : HasDistinctLists settings) (I : IndexStore)
    (E : ExpiryStore) (V : ViewStore) (B : Backend) (around : Surroundings) (P : PageStore)
    (F : Finder I B) (texts : Texts) where
  -- A snippet has been created, and the worker has run the jobs that were in the queue before it and one
  -- more. Then a search finds its version, if every word of the query is in the title and content,
  -- PostgreSQL has the version among its rows for the query, none of which has a null content, Redis keeps
  -- no page for it, and the caller may see the version.
  pub created_is_found :
      (uuid : String) (now : ℕ) (first second : Draw) (payload : SnippetCreate) (user : User)
      (w : World B R) {r : SnippetResponse} {w' : World B R} (tw : TaskWorld I E V B)
      (query : String) (caller : Option User) (params : Params) (pages : P.Store) (s : V.Store)
      (x : Snippet) (v : SnippetVersion)
      → create_snippet B R settings uuid now first second payload user w ≡ (ok r, w')
      → let text = str_append payload.title (str_append " " payload.content) in
        let rounds = suc (length (R.items w.jobs settings.queue)) in
        let tw' = (work R settings lists I E V B around rounds (w'.jobs, tw)).1 in
        ((t : String)
          → has t (tokenize texts.findall query) ≡ true
          → has t (around.findall text) ≡ true)
        → texts.is_blank query ≡ false
        → tokenize texts.findall query ≢ []
        → P.get (result_key (texts.lower query) params) pages ≡ none
        → x.short_id ≡ r.short_id
        → HaveContents (F.ranked tw'.db query)
        → IsAmong x v (F.ranked tw'.db query)
        → (is_private v.visibility && is_none caller) ≡ false
        → Finds V I B P F texts x v
            (search_snippets V I B P F texts query caller params tw'.db tw'.index (pages, s)).0
  created_is_found uuid now first second payload user w {r} {w'} tw query caller params pages s x v
        created words spoken said miss named contents among seen =
      let rounds = suc (length (R.items w.jobs settings.queue)) in
      let tw' = (work R settings lists I E V B around rounds (w'.jobs, tw)).1 in
      search-Finds V I B P F texts query caller params tw'.db tw'.index pages s x v spoken said miss
        (all-index_keys (λ k. I.is_member tw'.index k x.short_id) (tokenize texts.findall query)
          (λ t there. rw named (
            created_is_indexed R settings lists I E V B around uuid now first second payload user w
              tw t created (words t there))))
        contents among seen
