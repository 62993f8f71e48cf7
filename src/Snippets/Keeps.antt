-- ===== src/Snippets/Keeps.antt =====
-- What holds of the database through `create_snippet` and `update_snippet`, whatever it is, if each of their
-- writes keeps it.
use mathlib.Core.Path.{subst}
use swiftpaste.Prelude.{
  ℕ, String, ◌≡◌, refl, sym, ap, Bool, true, false, ◌||◌, Option, none, some, List, [], ◌∷◌,
  Bool-cases, Option-cases, inl, inr,
}
use swiftpaste.Core.Config.{Settings}
use swiftpaste.Core.Errors.{ok}
use swiftpaste.Jobs.Store.{JobStore}
use swiftpaste.Models.{
  VisibilityType, SnippetVersion, SnippetCreate, User, UpdateData, set_title, get,
}
use swiftpaste.Snippets.Backend.{Backend}
use swiftpaste.Snippets.Common.{World, select_owned}
use swiftpaste.Snippets.Retries.{Result-cases}
use swiftpaste.Snippets.Update.{
  content_changed, visibility_changed, create_new_version, write_title, write_version, latest,
  after_commit, update_rows, update_snippet,
}
use swiftpaste.Snippets.Updates.{refresh_cache_keeps}
use swiftpaste.Snippets.Create.{
  Draw, committed, is_short_id_error, insert_rows, new_snippet, create_loop,
}
use swiftpaste.Snippets.Creates.{Attempt-cases, IsDrawn, db-created_response}

ok_injective : {A : Type 0} {a b : A} → ok a ≡ ok b → a ≡ b
ok_injective e = cc

module _ (B : Backend) (R : JobStore) (settings : Settings) (P : B.Db → Type 0) where
  open B use {Db}

  pub create_loop-keeps :
      (uuid : String) (now : ℕ) (payload : SnippetCreate) (user : User) (draws : List Draw)
      (w : World B R)
      → ((draw : Draw) (d' : Db)
          → IsDrawn draw draws
          → insert_rows B payload (new_snippet payload user now draw) w.db ≡ committed d'
          → P d')
      → P w.db
      → P (create_loop B R settings uuid now payload user draws w).1.db
  unfolding create_loop
  create_loop-keeps uuid now payload user [] w inserts p = p
  create_loop-keeps uuid now payload user (draw ∷ draws) w inserts p =
      elim (Attempt-cases (insert_rows B payload (new_snippet payload user now draw) w.db)) [
        | inl (e, failed) ↦ elim (Bool-cases (is_short_id_error e)) [
          | inl again ↦
              rw (failed, again, create_loop)
                (create_loop-keeps uuid now payload user draws w
                  (λ later d' drawn. inserts later d' (inr drawn)) p)
          | inr stop ↦ rw (failed, stop, create_loop) p
        ]
        | inr (d, done) ↦
            rw (done, create_loop)
              (rw
                (db-created_response B R settings uuid now payload
                  (new_snippet payload user now draw) (record w { db = d }))
                (inserts draw d (inl refl) done))
      ]

  after_commit_keeps :
      (i : String) (made : Option SnippetVersion) (w : World B R)
      → (after_commit B R settings i made w).1.db ≡ w.db
  unfolding after_commit
  after_commit_keeps i made w = elim (Option-cases (B.by_id w.db i)) [
    | inl missing ↦ rw (missing, after_commit) refl
    | inr (x, found) ↦ elim (Option-cases (latest B made x w.db)) [
      | inl lost ↦ rw (found, lost, after_commit) refl
      | inr (v, there) ↦ rw (found, there, after_commit) (refresh_cache_keeps B R settings x v w).0
    ]
  ]

  module _ (i : String) (data_ : UpdateData) (user : User) where
    -- The writes of an update: the title that is given, and a new version.
    abbrev pub KeepsTitle : Type 0
    KeepsTitle =
        (title : String)
        → data_.title ≡ some (some title)
        → (d : Db) → P d
        → P (B.update_snippet_row i (set_title title) d)

    abbrev pub KeepsVersions : Type 0
    KeepsVersions =
        (content : Option String) (visibility : Option VisibilityType) (v : SnippetVersion)
        (d d' : Db)
        → create_new_version B i content visibility d ≡ ok (v, d')
        → P d
        → P d'

    write_title-keeps :
        (title : Option (Option String)) (d : Db) {d' : Db}
        → data_.title ≡ title
        → KeepsTitle
        → write_title B title i d ≡ ok d'
        → P d
        → P d'
    unfolding write_title
    write_title-keeps none d given retitles e p = subst P (ok_injective e) p
    write_title-keeps (some none) d given retitles e p = cc
    write_title-keeps (some (some t)) d given retitles e p =
        subst P (ok_injective e) (retitles t given d p)

    write_version-keeps :
        (changed : Bool) (d : Db) {made : Option SnippetVersion} {d' : Db}
        → KeepsVersions
        → write_version B changed i data_ d ≡ ok (made, d')
        → P d
        → P d'
    unfolding write_version
    write_version-keeps false d adds e p =
        subst P (ap (λ (x : Option SnippetVersion × Db). x.1) (ok_injective e)) p
    write_version-keeps true d adds e p =
        elim (Result-cases (create_new_version B i (get data_.content) (get data_.visibility) d)) [
          | inl (f, failed) ↦ cc (rw (failed, write_version) at e)
          | inr ((v, d₂), done) ↦
              subst P
                (ap (λ (x : Option SnippetVersion × Db). x.1)
                  (ok_injective (rw (done, write_version) at e)))
                (adds (get data_.content) (get data_.visibility) v d d₂ done p)
        ]

    update_rows-keeps :
        (current : SnippetVersion) (w : World B R)
        → KeepsTitle
        → KeepsVersions
        → P w.db
        → P (update_rows B R settings i data_ current w).1.db
    unfolding update_rows
    update_rows-keeps current w retitles adds p =
        elim (Result-cases (write_title B data_.title i w.db)) [
          | inl (e, failed) ↦ rw (failed, update_rows) p
          | inr (d₁, titled) ↦
              let changed =
                content_changed data_.content current.content
                || visibility_changed data_.visibility current.visibility in
              let p₁ = write_title-keeps data_.title w.db refl retitles titled p in
              elim (Result-cases (write_version B changed i data_ d₁)) [
                | inl (e, failed) ↦ rw (titled, failed, update_rows) p
                | inr ((none, d₂), wrote) ↦
                    rw (titled, wrote, update_rows)
                      (subst P (sym (after_commit_keeps i none (record w { db = d₂ })))
                        (write_version-keeps changed d₁ adds wrote p₁))
                | inr ((some v, d₂), wrote) ↦
                    rw (titled, wrote, update_rows)
                      (subst P (sym (after_commit_keeps i (some v) _))
                        (write_version-keeps changed d₁ adds wrote p₁))
              ]
        ]

    pub update_snippet-keeps :
        (w : World B R)
        → KeepsTitle
        → KeepsVersions
        → P w.db
        → P (update_snippet B R settings i data_ user w).1.db
    unfolding update_snippet
    update_snippet-keeps w retitles adds p = elim (Option-cases (select_owned B w.db i user)) [
      | inl missing ↦ rw (missing, update_snippet) p
      | inr (x, found) ↦ elim (Option-cases (B.version_row w.db x.id x.version_counter)) [
        | inl lost ↦ rw (found, lost, update_snippet) p
        | inr (current, there) ↦
            rw (found, there, update_snippet) (update_rows-keeps current w retitles adds p)
      ]
    ]
