-- ===== src/Snippets/Steps.antt =====
-- The writes of the service on the database as steps, and its operations as runs of such steps.
use swiftpaste.Prelude.{
  ℕ, String, ◌≡◌, refl, ◌∙◌, ap, Option, List, [], ◌∷◌, Option-cases, inl, inr,
}
use swiftpaste.Core.Config.{Settings}
use swiftpaste.Core.Errors.{ok}
use swiftpaste.Jobs.Store.{JobStore}
use swiftpaste.Models.{
  VisibilityType, Snippet, SnippetVersion, SnippetCreate, SnippetOut, User, UpdateData,
  count_version, set_title, mark_deleted,
}
use swiftpaste.Snippets.Backend.{Backend, inserted}
use swiftpaste.Snippets.Common.{World, select_owned}
use swiftpaste.Snippets.View.{get_snippet_cached}
use swiftpaste.Snippets.Caching.{read_keeps_db}
use swiftpaste.Snippets.Update.{new_version, create_new_version, update_snippet}
use swiftpaste.Snippets.Create.{
  Draw, committed, insert_rows, new_snippet, create_loop, create_snippet,
}
use swiftpaste.Snippets.Creates.{Inserted-cases}
use swiftpaste.Snippets.Delete.{
  version_or_latest, ttl_or_default, compute_expires_at, delete_snippet, snippet_out_url,
}
use swiftpaste.Snippets.Consistent.{IsConsistent, changed-IsConsistent, expired-IsConsistent}
use swiftpaste.Snippets.Keeps.{create_loop-keeps, update_snippet-keeps}
use swiftpaste.Snippets.Grown.{inserted-IsConsistent, added-IsConsistent}

ok_injective : {A : Type 0} {a b : A} → ok a ≡ ok b → a ≡ b
ok_injective e = cc

module _ (B : Backend) where
  open B use {Db, by_id, by_short_id, version_row, update_snippet_row, update_expiry}

  -- One write that the service commits.
  pub data Step : Db → Db → Type 0 where
    insert :
        (payload : SnippetCreate) (x : Snippet) (d d' : Db)
        → x.version_counter ≡ 1
        → insert_rows B payload x d ≡ committed d'
        → Step d d'
    add_version :
        (i : String) (content : Option String) (visibility : Option VisibilityType)
        (v : SnippetVersion) (d d' : Db)
        → create_new_version B i content visibility d ≡ ok (v, d')
        → Step d d'
    retitle : (i title : String) (d : Db) → Step d (update_snippet_row i (set_title title) d)
    mark : (i : String) (now : ℕ) (d : Db) → Step d (update_snippet_row i (mark_deleted now) d)
    expire : (i : String) (n t : ℕ) (d : Db) → Step d (update_expiry i n t d)

  pub data Reach (d : Db) : Db → Type 0 where
    here : Reach d d
    next : {d₁ d₂ : Db} → Reach d d₁ → Step d₁ d₂ → Reach d d₂

  created-IsConsistent :
      (i : String) (content : Option String) (visibility : Option VisibilityType)
      (v : SnippetVersion) (d d' : Db)
      → IsConsistent B d
      → create_new_version B i content visibility d ≡ ok (v, d')
      → IsConsistent B d'
  unfolding create_new_version
  created-IsConsistent i content visibility v d d' h e =
      let d₁ = update_snippet_row i count_version d in
      elim (Option-cases (by_id d₁ i)) [
        | inl missing ↦ cc (rw (missing, create_new_version) at e)
        | inr (row, found) ↦
            let made = new_version B i row.version_counter content visibility in
            elim (Inserted-cases (B.insert_version made d₁)) [
              | inl (t, failed) ↦ cc (rw (found, failed, create_new_version) at e)
              | inr (d₂, done) ↦
                  let same : d₂ ≡ d' =
                    ap (λ (p : SnippetVersion × Db). p.1)
                      (ok_injective (rw (found, done, create_new_version) at e)) in
                  added-IsConsistent B i made d d' h found refl refl (done ∙ ap inserted same)
            ]
      ]

  pub Step-IsConsistent : {d d' : Db} → Step d d' → IsConsistent B d → IsConsistent B d'
  Step-IsConsistent (insert payload x d d' one e) h = inserted-IsConsistent B payload x d d' h one e
  Step-IsConsistent (add_version i content visibility v d d' e) h =
      created-IsConsistent i content visibility v d d' h e
  Step-IsConsistent (retitle i title d) h =
      changed-IsConsistent B i (set_title title) d h (λ x. refl)
  Step-IsConsistent (mark i now d) h = changed-IsConsistent B i (mark_deleted now) d h (λ x. refl)
  Step-IsConsistent (expire i n t d) h = expired-IsConsistent B i n t d h

  pub Reach-IsConsistent : {d d' : Db} → Reach d d' → IsConsistent B d → IsConsistent B d'
  Reach-IsConsistent here h = h
  Reach-IsConsistent (next r s) h = Step-IsConsistent s (Reach-IsConsistent r h)

module _ (B : Backend) (R : JobStore) (settings : Settings) where
  open B use {Db}

  create_loop-Reach :
      (uuid : String) (now : ℕ) (payload : SnippetCreate) (user : User) (draws : List Draw)
      (w : World B R)
      → Reach B w.db (create_loop B R settings uuid now payload user draws w).1.db
  create_loop-Reach uuid now payload user draws w =
      create_loop-keeps B R settings (λ d. Reach B w.db d) uuid now payload user draws w
        (λ draw d' _ done.
          next here (insert payload (new_snippet payload user now draw) w.db d' refl done))
        here

  update_snippet-Reach :
      (i : String) (data_ : UpdateData) (user : User) (w : World B R)
      → Reach B w.db (update_snippet B R settings i data_ user w).1.db
  update_snippet-Reach i data_ user w =
      update_snippet-keeps B R settings (λ d. Reach B w.db d) i data_ user w
        (λ title _ d r. next r (retitle i title d))
        (λ content visibility v d d' done r. next r (add_version i content visibility v d d' done))
        here

  delete_snippet-Reach :
      (uuid : String) (now : ℕ) (i : String) (user : User) (w : World B R)
      → Reach B w.db (delete_snippet B R settings uuid now i user w).1.db
  unfolding delete_snippet
  delete_snippet-Reach uuid now i user w = elim (Option-cases (select_owned B w.db i user)) [
    | inl missing ↦ rw (missing, delete_snippet) here
    | inr (x, found) ↦ rw (found, delete_snippet) (next here (mark x.id now w.db))
  ]

  snippet_out_url-Reach :
      (now : ℕ) (i : String) (version : Option ℕ) (payload : SnippetOut) (user : User)
      (w : World B R)
      → Reach B w.db (snippet_out_url B R settings now i version payload user w).1.db
  unfolding snippet_out_url
  snippet_out_url-Reach now i version payload user w =
      elim (Option-cases (select_owned B w.db i user)) [
        | inl missing ↦ rw (missing, snippet_out_url) here
        | inr (x, found) ↦
            elim (Option-cases (B.version_row w.db i (version_or_latest version x))) [
              | inl missing ↦ rw (found, missing, snippet_out_url) here
              | inr (v, there) ↦
                  let ttl = ttl_or_default payload.ttl_seconds settings.default_share_ttl_seconds in
                  rw (found, there, snippet_out_url)
                    (next here
                      (expire i (version_or_latest version x) (compute_expires_at now ttl) w.db))
            ]
      ]

  -- The tables stay consistent under every operation of the service, on all of its paths: the indexes
  -- of snippets find each row under its own keys, and a snippet has the versions from 1 to its counter
  -- and no other.
  pub operations_keep_consistency :
      (w : World B R)
      → IsConsistent B w.db
      → ((uuid : String) (now : ℕ) (first second : Draw) (payload : SnippetCreate) (user : User)
          → IsConsistent B (create_snippet B R settings uuid now first second payload user w).1.db)
        × ((i : String) (data_ : UpdateData) (user : User)
            → IsConsistent B (update_snippet B R settings i data_ user w).1.db)
        × ((uuid : String) (now : ℕ) (i : String) (user : User)
            → IsConsistent B (delete_snippet B R settings uuid now i user w).1.db)
        × ((now : ℕ) (i : String) (version : Option ℕ) (payload : SnippetOut) (user : User)
            → IsConsistent B (snippet_out_url B R settings now i version payload user w).1.db)
        × ((short_id : String) (version : Option ℕ) (user : Option User) (now : ℕ)
            → IsConsistent B (get_snippet_cached B R settings short_id version user now w).1.db)
  unfolding create_snippet
  operations_keep_consistency w h = (
    λ uuid now first second payload user.
        Reach-IsConsistent B (create_loop-Reach uuid now payload user (first ∷ second ∷ []) w) h,
    λ i data_ user. Reach-IsConsistent B (update_snippet-Reach i data_ user w) h,
    λ uuid now i user. Reach-IsConsistent B (delete_snippet-Reach uuid now i user w) h,
    λ now i version payload user.
        Reach-IsConsistent B (snippet_out_url-Reach now i version payload user w) h,
    λ short_id version user now. rw (read_keeps_db B R settings short_id version user now w) h,
  )
