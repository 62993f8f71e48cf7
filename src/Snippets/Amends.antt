-- ===== src/Snippets/Amends.antt =====
-- `update_snippet` does to the database what is said of documents.
use mathlib.Core.Option
use mathlib.Core.Path.{fun_ext}
use text.Mathlib.TextPositions.{eq_refl}
use swiftpaste.Prelude.{
  ℕ, suc, ◌≤◌, String, ◌≡◌, refl, ◌∙◌, sym, ap, true, false, ◌&&◌, Option, none, some, List, ◌∷◌,
  arith, str_eq, leb, ◌==◌, if◌then◌else◌, Bool-cases, Option-cases, inl, inr,
}
use swiftpaste.Core.Config.{Settings}
use swiftpaste.Core.Errors.{Result}
use swiftpaste.Jobs.Store.{JobStore}
use swiftpaste.Models.{
  Snippet, SnippetVersion, User, SnippetResponse, model_dump, change, count_version, set_title,
}
use swiftpaste.Snippets.Backend.{Backend}
use swiftpaste.Snippets.Common.{World, is_live, select_owned}
use swiftpaste.Snippets.Update.{content_changed, write_title, update_rows, update_snippet}
use swiftpaste.Snippets.Versions.{owned_row, kept}
use swiftpaste.Snippets.Updates.{refresh_cache_keeps, next_version, updated_public, db_updated}
use swiftpaste.Snippets.Consistent.{IsConsistent, is_there}
use swiftpaste.Prelude.Lists.{length}
use swiftpaste.Snippets.Documents.{Document, numbered, document, document_of, extend, amend, update}
use swiftpaste.Snippets.Refines.{
  numbered_next, numbered_latest, extend_changed, extend_same, amend-some, amend-none, amend_nil,
  document-congr, document-some, length-history, altered,
}
use swiftpaste.Snippets.Edits.{perform, Refines, others_changed, row_changed}

module _ (B : Backend) (R : JobStore) (settings : Settings) where
  open B use {Db, by_id, version_row, update_snippet_row}

  module _ (w : World B R) (user : User) (x : Snippet)
      (owned : select_owned B w.db x.id user ≡ some x) (h : IsConsistent B w.db) where
    -- The document of the row, as it is before the call.
    abbrev before : Document
    before = record {
      author_id = x.author_id;
      title = x.title;
      live = is_live x;
      history = numbered (version_row w.db x.id) x.version_counter;
    }

    -- An update that changes no row.
    unchanged-Refines :
        (title content : Option String)
        → (update_snippet B R settings x.id
            (model_dump (record { title = title; content = content }))
            user
            w).1.db
          ≡ w.db
        → amend x.id title content before ≡ before
        → Refines B R settings (update x.id title content user) w
    unfolding perform
    unchanged-Refines title content same none_ j =
        let row = (owned_row B w.db x.id user owned).0 in
        ap (λ (d : Db). document_of B d j) same
        ∙ altered B w.db w.db user (amend x.id title content) x owned
            (document-some B w.db x.id row
              ∙ sym (
                  ap (Option.map (amend x.id title content)) (document-some B w.db x.id row)
                  ∙ ap some none_))
            (λ k other. refl) j

    module _ (title : String) (content : Option String) (current : SnippetVersion)
        (there : version_row w.db x.id x.version_counter ≡ some current)
        (older : List SnippetVersion)
        (history : numbered (version_row w.db x.id) x.version_counter ≡ current ∷ older) where
      amended :
          (d' : Db) (y : Snippet) (hs : List SnippetVersion)
          → (update_snippet B R settings x.id
              (model_dump (record { title = some title; content = content }))
              user
              w).1.db
            ≡ d'
          → document_of B d' x.id ≡ some (record before { title = title; history = hs })
          → extend x.id content before.history ≡ hs
          → ((k : String) → str_eq x.id k ≡ false → document_of B d' k ≡ document_of B w.db k)
          → Refines B R settings (update x.id (some title) content user) w
      unfolding perform
      amended d' y hs ran at_id longer others j =
          let row = (owned_row B w.db x.id user owned).0 in
          ap (λ (d : Db). document_of B d j) ran
          ∙ altered B w.db d' user (amend x.id (some title) content) x owned
              (at_id
                ∙ sym (
                    ap (Option.map (amend x.id (some title) content))
                      (document-some B w.db x.id row)
                    ∙ ap some (
                        amend-some x.id title content before current older history
                        ∙ ap
                            (λ (l : List SnippetVersion). record before {
                              title = title;
                              history = l;
                            })
                            longer)))
              others j

      kept-Refines :
          content_changed (some content) current.content ≡ false
          → Refines B R settings (update x.id (some title) content user) w
      kept-Refines same =
          let row = (owned_row B w.db x.id user owned).0 in
          let d' = update_snippet_row x.id (set_title title) w.db in
          amended d' x before.history
            (ap (λ (p : Result SnippetResponse × World B R). p.1.db)
                (kept B R settings title content user w x current owned there same)
              ∙ (refresh_cache_keeps B R settings (change (set_title title) x) current
                  (record w { db = d' })).0)
            (row_changed B R settings w.db x.id (set_title title) row)
            (extend_same x.id content before.history current older history same)
            (others_changed B R settings x.id (set_title title) w.db)

      changed-Refines :
          content_changed (some content) current.content ≡ true
          → Refines B R settings (update x.id (some title) content user) w
      changed-Refines changed =
          let row = (owned_row B w.db x.id user owned).0 in
          let free : version_row w.db x.id (suc x.version_counter) ≡ none =
            not_there _ (h.numbers x.id (suc x.version_counter) ∙ rw row (ground arith)) in
          let u =
            updated_public B R settings title content user w x current owned there changed free in
          let v = next_version B R settings title content user w x current owned there in
          let rows : (n : ℕ)
              → version_row u.d' x.id n
                ≡ (if suc x.version_counter == n then some v else version_row w.db x.id n) =
            λ n. u.versions x.id n ∙ rw eq_refl in
          let counted : length before.history ≡ x.version_counter = length-history B h x.id row in
          amended u.d' x (v ∷ before.history)
            (db_updated B R settings title content user w x current owned there changed free)
            (ap (document (version_row u.d' x.id)) u.row
              ∙ ap
                  (λ (f : ℕ → Option SnippetVersion).
                    document f (some (change count_version (change (set_title title) x))))
                  (fun_ext rows)
              ∙ ap
                  (λ (l : List SnippetVersion). some (record before { title = title; history = l }))
                  (numbered_next (version_row w.db x.id) v x.version_counter))
            (extend_changed x.id content before.history current older history changed
              ∙ ap (λ (n : ℕ). (record v { version = suc n }) ∷ before.history) counted)
            (λ k other.
              document-congr B w.db u.d' k (u.others k other) (λ n. u.versions k n ∙ rw other))
        where
          not_there : (o : Option SnippetVersion) → is_there o ≡ false → o ≡ none
          not_there none e = refl
          not_there (some v) e = cc

    no_title_changes_nothing :
        (content : Option String) (current : SnippetVersion)
        → version_row w.db x.id x.version_counter ≡ some current
        → (update_snippet B R settings x.id
            (model_dump (record { title = none; content = content }))
            user
            w).1.db
          ≡ w.db
    unfolding update_snippet update_rows write_title model_dump
    no_title_changes_nothing content current there =
        rw (owned, there, update_snippet, update_rows, write_title) refl

    no_version_changes_nothing :
        (title content : Option String)
        → version_row w.db x.id x.version_counter ≡ none
        → (update_snippet B R settings x.id
            (model_dump (record { title = title; content = content }))
            user
            w).1.db
          ≡ w.db
    unfolding update_snippet
    no_version_changes_nothing title content missing = rw (owned, missing, update_snippet) refl

    latest_number : version_row w.db x.id x.version_counter ≡ none → x.version_counter ≡ 0
    latest_number missing =
        let row = (owned_row B w.db x.id user owned).0 in
        let absent : false ≡ (leb 1 x.version_counter && leb x.version_counter x.version_counter) =
          rw (missing, row) at (h.numbers x.id x.version_counter) in
        ground arith

    latest_positive :
        {v : SnippetVersion}
        → version_row w.db x.id x.version_counter ≡ some v
        → 1 ≤ x.version_counter
    latest_positive there =
        let row = (owned_row B w.db x.id user owned).0 in
        let present : true ≡ (leb 1 x.version_counter && leb x.version_counter x.version_counter) =
          rw (there, row) at (h.numbers x.id x.version_counter) in
        ground arith

    pub update-Refines :
        (title content : Option String) → Refines B R settings (update x.id title content user) w
    update-Refines title content = elim (Option-cases (version_row w.db x.id x.version_counter)) [
      | inl missing ↦
          unchanged-Refines title content (no_version_changes_nothing title content missing) (
            amend_nil x.id title content before
              (ap (numbered (version_row w.db x.id)) (latest_number missing)))
      | inr (current, there) ↦ titled title current there
    ]
      where
        titled :
            (title : Option String) (current : SnippetVersion)
            → version_row w.db x.id x.version_counter ≡ some current
            → Refines B R settings (update x.id title content user) w
        titled none current there =
            unchanged-Refines none content (no_title_changes_nothing content current there)
              (amend-none x.id content before)
        titled (some title) current there =
            let (older, history) =
              numbered_latest (version_row w.db x.id) x.version_counter (latest_positive there)
                there in
            elim (Bool-cases (content_changed (some content) current.content)) [
              | inl changed ↦ changed-Refines title content current there older history changed
              | inr same ↦ kept-Refines title content current there older history same
            ]
