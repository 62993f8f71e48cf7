-- ===== src/Snippets/Edits.antt =====
-- The calls that change a snippet do to the database what is said of documents.
use mathlib.Core.Option
use mathlib.Core.Path.{fun_ext}
use text.Mathlib.TextPositions.{eq_refl}
use swiftpaste.Prelude.{
  ℕ, zero, suc, String, ◌≡◌, refl, ◌∙◌, sym, ap, false, Option, none, some, List, [], ◌∷◌, arith,
  str_eq, ◌==◌, if◌then◌else◌, Bool-cases, Option-cases, inl, inr,
}
use swiftpaste.Core.Config.{Settings}
use swiftpaste.Jobs.Store.{JobStore}
use swiftpaste.Models.{Snippet, User, SnippetOut, model_dump, change, SnippetChange, mark_deleted}
use swiftpaste.Snippets.Backend.{Backend, set_expiry}
use swiftpaste.Snippets.Common.{World, select_owned}
use swiftpaste.Snippets.Update.{update_snippet}
use swiftpaste.Snippets.Versions.{owned_row}
use swiftpaste.Snippets.Delete.{
  version_or_latest, ttl_or_default, compute_expires_at, delete_snippet, snippet_out_url,
}
use swiftpaste.Snippets.Consistent.{IsConsistent}
use swiftpaste.Snippets.Steps.{operations_keep_consistency}
use swiftpaste.Prelude.Lists.{length}
use swiftpaste.Snippets.Documents.{
  Document, numbered, document, document_of, expire, chosen, limit, Edit, update, delete, share,
  revised,
}
use swiftpaste.Snippets.Refines.{
  expire-numbered, document-congr, document-some, length-history, altered,
}

module _ (B : Backend) (R : JobStore) (settings : Settings) where
  open B use {Db, by_id, version_row, update_snippet_row}

  -- A call, on the world of the service.
  unfoldable pub perform : Edit → World B R → World B R
  perform (update i title content user) w =
      (update_snippet B R settings i (model_dump (record { title = title; content = content })) user
        w).1
  perform (delete i user uuid now) w = (delete_snippet B R settings uuid now i user w).1
  perform (share i version payload user now) w =
      (snippet_out_url B R settings now i version payload user w).1

  unfoldable pub run : List Edit → World B R → World B R
  unfolding perform
  run [] w = w
  run (e ∷ es) w = run es (perform e w)

  pub perform-IsConsistent :
      (e : Edit) (w : World B R) → IsConsistent B w.db → IsConsistent B (perform e w).db
  unfolding perform
  perform-IsConsistent (update i title content user) w h =
      (operations_keep_consistency B R settings w h).1 i
        (model_dump (record { title = title; content = content })) user
  perform-IsConsistent (delete i user uuid now) w h =
      (operations_keep_consistency B R settings w h).2 uuid now i user
  perform-IsConsistent (share i version payload user now) w h =
      (operations_keep_consistency B R settings w h).3 now i version payload user

  -- A call on the id of the row that it finds.
  abbrev pub Refines : Edit → World B R → Type 0
  Refines e w =
      (j : String) → document_of B (perform e w).db j ≡ revised settings e (document_of B w.db) j

  pub others_changed :
      (i : String) (c : SnippetChange) (d : Db) (j : String)
      → str_eq i j ≡ false
      → document_of B (update_snippet_row i c d) j ≡ document_of B d j
  others_changed i c d j other =
      document-congr B d (update_snippet_row i c d) j
        (B.by_id-update_snippet_row i c d j ∙ rw other) (B.version_row-update_snippet_row i c d j)

  pub row_changed :
      (d : Db) (i : String) (c : SnippetChange) {x : Snippet}
      → by_id d i ≡ some x
      → document_of B (update_snippet_row i c d) i ≡ document (version_row d i) (some (change c x))
  row_changed d i c row =
      rw
        (
          B.by_id-update_snippet_row,
          eq_refl,
          row,
          fun_ext (B.version_row-update_snippet_row i c d i),
        )
        refl

  module _ (w : World B R) (user : User) (x : Snippet)
      (owned : select_owned B w.db x.id user ≡ some x) where
    pub delete-Refines : (uuid : String) (now : ℕ) → Refines (delete x.id user uuid now) w
    unfolding perform delete_snippet
    delete-Refines uuid now j =
        let row = (owned_row B w.db x.id user owned).0 in
        rw (owned, perform, delete_snippet)
          (altered B w.db (update_snippet_row x.id (mark_deleted now) w.db) user
            (λ doc. record doc { live = false }) x owned
            (row_changed w.db x.id (mark_deleted now) row
              ∙ sym (
                  ap (Option.map (λ (doc : Document). record doc { live = false }))
                    (document-some B w.db x.id row)))
            (others_changed x.id (mark_deleted now) w.db) j)

    module _ (h : IsConsistent B w.db) where
      chosen-version_or_latest :
          (version : Option ℕ) → chosen version x.version_counter ≡ version_or_latest version x
      chosen-version_or_latest none = refl
      chosen-version_or_latest (some zero) = refl
      chosen-version_or_latest (some (suc n)) = refl

      -- The history with one version's expiry set.
      limited_history :
          (version : Option ℕ) (t : ℕ)
          → expire
              (chosen version (length (numbered (version_row w.db x.id) x.version_counter)))
              t
              (numbered (version_row w.db x.id) x.version_counter)
            ≡ numbered
                (λ k.
                  if version_or_latest version x == k
                  then Option.map (set_expiry t) (version_row w.db x.id k)
                  else version_row w.db x.id k)
                x.version_counter
      limited_history version t =
          let row = (owned_row B w.db x.id user owned).0 in
          ap (λ (n : ℕ). expire n t (numbered (version_row w.db x.id) x.version_counter))
            (ap (chosen version) (length-history B h x.id row) ∙ chosen-version_or_latest version)
          ∙ sym (
              expire-numbered (version_row w.db x.id) x.id (version_or_latest version x) t
                x.version_counter (h.keys x.id))

      no_such_version :
          (m t k : ℕ)
          → version_row w.db x.id m ≡ none
          → (if m == k
              then Option.map (set_expiry t) (version_row w.db x.id k)
              else version_row w.db x.id k)
            ≡ version_row w.db x.id k
      no_such_version m t k missing = elim (Bool-cases (m == k)) [
        | inl hit ↦ ground (arith, missing)
        | inr other ↦ rw other
      ]

      pub share-Refines :
          (version : Option ℕ) (payload : SnippetOut) (now : ℕ)
          → Refines (share x.id version payload user now) w
      unfolding perform snippet_out_url
      share-Refines version payload now j =
          let row = (owned_row B w.db x.id user owned).0 in
          let m = version_or_latest version x in
          let t =
            compute_expires_at now
              (ttl_or_default payload.ttl_seconds settings.default_share_ttl_seconds) in
          let history = limited_history version t in
          elim (Option-cases (version_row w.db x.id m)) [
            | inl missing ↦
                rw (owned, missing, perform, snippet_out_url)
                  (altered B w.db w.db user (limit version t) x owned
                    (rw row (rw (history, fun_ext (λ k. no_such_version m t k missing)) refl))
                    (λ j other. refl) j)
            | inr (v, there) ↦
                rw (owned, there, perform, snippet_out_url)
                  (altered B w.db (B.update_expiry x.id m t w.db) user (limit version t) x owned
                    (rw
                      (
                        B.by_id-update_expiry,
                        row,
                        fun_ext (B.version_row-update_expiry x.id m t w.db x.id),
                        eq_refl,
                      )
                      (rw history refl))
                    (λ j other.
                      document-congr B w.db (B.update_expiry x.id m t w.db) j
                        (B.by_id-update_expiry x.id m t w.db j)
                        (λ n. B.version_row-update_expiry x.id m t w.db j n ∙ rw other))
                    j)
          ]
