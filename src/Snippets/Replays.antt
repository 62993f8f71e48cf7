-- ===== src/Snippets/Replays.antt =====
-- Any sequence of calls does to the database what is said of documents.
use mathlib.Core.Path.{fun_ext}
use swiftpaste.Prelude.{
  ℕ, String, ◌≡◌, refl, ◌∙◌, sym, ap, false, Option, none, some, List, [], ◌∷◌, Option-cases, inl,
  inr,
}
use swiftpaste.Core.Config.{Settings}
use swiftpaste.Jobs.Store.{JobStore}
use swiftpaste.Models.{Snippet, User, SnippetOut, model_dump}
use swiftpaste.Snippets.Backend.{Backend}
use swiftpaste.Snippets.Common.{World, select_owned}
use swiftpaste.Snippets.Update.{update_snippet}
use swiftpaste.Snippets.Versions.{owned_row}
use swiftpaste.Snippets.Delete.{delete_snippet, snippet_out_url}
use swiftpaste.Snippets.Consistent.{IsConsistent}
use swiftpaste.Snippets.Documents.{
  Document, document_of, amend, limit, Edit, update, delete, share, alter, replay,
}
use swiftpaste.Snippets.Refines.{unowned}
use mathlib.Core.Path.{subst}
use swiftpaste.Snippets.Edits.{
  perform, run, perform-IsConsistent, Refines, delete-Refines, share-Refines,
}
use swiftpaste.Snippets.Amends.{update-Refines}

module _ (B : Backend) (R : JobStore) (settings : Settings) where
  open B use {Db, by_id, version_row}

  module _ (w : World B R) (i : String) (user : User)
      (missing : select_owned B w.db i user ≡ none) where
    refused-Refines :
        (d' : Db) (f : Document → Document)
        → d' ≡ w.db
        → (j : String) → document_of B d' j ≡ alter i user f (document_of B w.db) j
    refused-Refines d' f same j =
        ap (λ (d : Db). document_of B d j) same ∙ sym (unowned B w.db i user f missing j)

    update_refused :
        (title content : Option String)
        → (update_snippet B R settings i
            (model_dump (record { title = title; content = content }))
            user
            w).1.db
          ≡ w.db
    unfolding update_snippet
    update_refused title content = rw (missing, update_snippet) refl

    delete_refused :
        (uuid : String) (now : ℕ) → (delete_snippet B R settings uuid now i user w).1.db ≡ w.db
    unfolding delete_snippet
    delete_refused uuid now = rw (missing, delete_snippet) refl

    share_refused :
        (version : Option ℕ) (payload : SnippetOut) (now : ℕ)
        → (snippet_out_url B R settings now i version payload user w).1.db ≡ w.db
    unfolding snippet_out_url
    share_refused version payload now = rw (missing, snippet_out_url) refl

  -- At the id of a row that is found, and so at every id.
  at_id :
      (P : String → Type 0) (w : World B R) (i : String) (user : User)
      → (select_owned B w.db i user ≡ none → P i)
      → ((x : Snippet) → select_owned B w.db x.id user ≡ some x → P x.id)
      → P i
  at_id P w i user refused found = elim (Option-cases (select_owned B w.db i user)) [
    | inl missing ↦ refused missing
    | inr (x, owned) ↦
        let e = (owned_row B w.db i user owned).1 in
        subst P e (found x (subst (λ k. select_owned B w.db k user ≡ some x) (sym e) owned))
  ]

  perform-Refines : (e : Edit) (w : World B R) → IsConsistent B w.db → Refines B R settings e w
  unfolding perform
  perform-Refines (update i title content user) w h =
      at_id (λ k. Refines B R settings (update k title content user) w) w i user
        (λ missing.
          refused-Refines w i user missing _ (amend i title content)
            (update_refused w i user missing title content))
        (λ x owned. update-Refines B R settings w user x owned h title content)
  perform-Refines (delete i user uuid now) w h =
      at_id (λ k. Refines B R settings (delete k user uuid now) w) w i user
        (λ missing.
          refused-Refines w i user missing _ (λ doc. record doc { live = false })
            (delete_refused w i user missing uuid now))
        (λ x owned. delete-Refines B R settings w user x owned uuid now)
  perform-Refines (share i version payload user now) w h =
      at_id (λ k. Refines B R settings (share k version payload user now) w) w i user
        (λ missing.
          refused-Refines w i user missing _ (limit version _)
            (share_refused w i user missing version payload now))
        (λ x owned. share-Refines B R settings w user x owned h version payload now)

  -- On consistent tables, any sequence of updates, deletes and shares by any users, those that raise
  -- included, leaves the documents that the same calls make of the documents before: an author's update
  -- sets the title and puts another content in front of the history, a delete takes the document out of
  -- sight, a share sets the expiry of one version, and nobody else's call changes anything.
  pub run_refines :
      (edits : List Edit) (w : World B R)
      → IsConsistent B w.db
      → (j : String)
      → document_of B (run B R settings edits w).db j ≡ replay settings edits (document_of B w.db) j
  unfolding run replay
  run_refines [] w h j = refl
  run_refines (e ∷ es) w h j =
      run_refines es (perform B R settings e w) (perform-IsConsistent B R settings e w h) j
      ∙ ap (λ (docs : String → Option Document). replay settings es docs j)
          (fun_ext (perform-Refines e w h))
