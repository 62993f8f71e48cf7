-- ===== src/Snippets/Versions.antt =====
-- What `update_snippet` commits: the versions of a snippet only grow.
use text.Mathlib.TextPositions.{eq_refl}
use swiftpaste.Prelude.{
  arith, ℕ, suc, String, ◌≡◌, ◌∙◌, sym, ap, Bool, true, false, ◌&&◌, Option, none, some, str_eq,
  ◌==◌, if◌then◌else◌, Bool-cases, inl, inr,
}
use swiftpaste.Core.Config.{Settings}
use swiftpaste.Core.Errors.{ok}
use swiftpaste.Jobs.Store.{JobStore}
use swiftpaste.Models.{
  VisibilityType, Snippet, SnippetVersion, User, SnippetUpdate, model_dump, SnippetChange,
  count_version, set_title, change, UpdateData,
}
use swiftpaste.Snippets.Backend.{Backend}
use swiftpaste.Snippets.Common.{World, is_live, count_creation, select_owned, keep_if}
use swiftpaste.Snippets.Update.{
  content_changed, new_version, create_new_version, write_title, write_version, refresh_cache,
  after_commit, update_rows, update_snippet,
}

keep_if-some :
    (p : Snippet → Bool) (o : Option Snippet) {x : Snippet}
    → keep_if p o ≡ some x
    → (o ≡ some x) × (p x ≡ true)
keep_if-some p none e = cc
keep_if-some p (some y) e = elim (Bool-cases (p y)) [
  | inl fits ↦ let same = rw fits at e in (same, ap p (some_injective (sym same)) ∙ fits)
  | inr not_ ↦ cc (rw not_ at e)
]
  where
    some_injective : {a b : Snippet} → some a ≡ some b → a ≡ b
    some_injective e = cc

and_left : (a b : Bool) → (a && b) ≡ true → a ≡ true
and_left a b e = ground arith

module _ (B : Backend) where
  open B use {Db, by_id, by_short_id, version_row, insert_version, update_snippet_row}

  -- The row that a user's select has found.
  pub owned_row :
      (d : Db) (id : String) (user : User) {x : Snippet}
      → select_owned B d id user ≡ some x
      → (by_id d id ≡ some x) × (x.id ≡ id)
  owned_row d id user e = let row = (keep_if-some _ (by_id d id) e).0 in (row, B.id-by_id d id row)

  pub owned_live :
      (d : Db) (id : String) (user : User) {x : Snippet}
      → select_owned B d id user ≡ some x
      → is_live x ≡ true
  owned_live d id user {x} e = and_left _ _ (keep_if-some _ (by_id d id) e).1

  by_id-change :
      (d : Db) (id : String) (c : SnippetChange) {x : Snippet}
      → by_id d id ≡ some x
      → by_id (update_snippet_row id c d) id ≡ some (change c x)
  by_id-change d id c row = rw (B.by_id-update_snippet_row, eq_refl, row)

  pub by_short_id-change :
      (d : Db) (x : Snippet) (c : SnippetChange)
      → by_short_id d x.short_id ≡ some x
      → by_short_id (update_snippet_row x.id c d) x.short_id ≡ some (change c x)
  by_short_id-change d x c e = rw (B.by_short_id-update_snippet_row, e, eq_refl)

  -- A new version of a snippet that is there, under a number that is free.
  pub record Created (d : Db) (x : Snippet) (v : SnippetVersion) : Type 0 where
    pub d' : Db
    pub row : by_id d' x.id ≡ some (change count_version x)
    pub others : (j : String) → str_eq x.id j ≡ false → by_id d' j ≡ by_id d j
    pub short :
        by_short_id d x.short_id ≡ some x
        → by_short_id d' x.short_id ≡ some (change count_version x)
    pub versions :
        (j : String) (n : ℕ)
        → version_row d' j n
          ≡ (if str_eq x.id j && suc x.version_counter == n then some v else version_row d j n)

  created :
      (d : Db) (x : Snippet) (content : Option String) (visibility : Option VisibilityType)
      → by_id d x.id ≡ some x
      → version_row d x.id (suc x.version_counter) ≡ none
      → let v = new_version B x.id (suc x.version_counter) content visibility in
        (c : Created d x v) × (create_new_version B x.id content visibility d ≡ ok (v, c.d'))
  unfolding create_new_version
  created d x content visibility row free =
      let d₁ = update_snippet_row x.id count_version d in
      let v = new_version B x.id (suc x.version_counter) content visibility in
      let row₁ = by_id-change d x.id count_version row in
      let free₁ =
        B.version_row-update_snippet_row x.id count_version d x.id (suc x.version_counter) ∙ free in
      let (d₂, done) = B.insert_version-inserted v d₁ row₁ free₁ in
      (
        record {
          d' = d₂;
          row = B.by_id-insert_version v d₁ x.id done ∙ row₁;
          others = λ j other.
              B.by_id-insert_version v d₁ j done
              ∙ B.by_id-update_snippet_row x.id count_version d j
              ∙ rw other;
          short = λ e.
              B.by_short_id-insert_version v d₁ x.short_id done
              ∙ by_short_id-change d x count_version e;
          versions = λ j n.
              B.version_row-insert_version v d₁ j n done ∙ rw (B.version_row-update_snippet_row);
        },
        rw (row₁, done, create_new_version),
      )

module _ (B : Backend) (R : JobStore) (settings : Settings) where
  open B use {Db, by_id, by_short_id, version_row, update_snippet_row}

  -- Up to the two rows.
  update_finds :
      (id : String) (data_ : UpdateData) (user : User) (w : World B R) {x : Snippet}
      {current : SnippetVersion}
      → select_owned B w.db id user ≡ some x
      → version_row w.db x.id x.version_counter ≡ some current
      → update_snippet B R settings id data_ user w ≡ update_rows B R settings id data_ current w
  unfolding update_snippet
  update_finds id data_ user w owned at = rw (owned, at, update_snippet)

  module _ (title : String) (content : Option String) (user : User) (w : World B R) (x : Snippet)
      (current : SnippetVersion) (owned : select_owned B w.db x.id user ≡ some x)
      (at : version_row w.db x.id x.version_counter ≡ some current) where
    abbrev pub payload : SnippetUpdate
    payload = record { title = some title; content = content }

    abbrev pub retitled : Snippet
    retitled = change (set_title title) x

    abbrev pub made : SnippetVersion
    made = new_version B x.id (suc x.version_counter) content none

    -- A changed content: the state that the update commits, and how it goes on.
    pub record Updated (v : SnippetVersion) : Type 0 where
      pub d' : Db
      pub row : by_id d' x.id ≡ some (change count_version retitled)
      pub others : (j : String) → str_eq x.id j ≡ false → by_id d' j ≡ by_id w.db j
      pub short :
          by_short_id w.db x.short_id ≡ some x
          → by_short_id d' x.short_id ≡ some (change count_version retitled)
      pub versions :
          (j : String) (n : ℕ)
          → version_row d' j n
            ≡ (if str_eq x.id j && suc x.version_counter == n then some v else version_row w.db j n)
      pub goes_on :
          update_snippet B R settings x.id (model_dump payload) user w
          ≡ refresh_cache B R settings
              (change count_version retitled)
              v
              (record w { db = d'; metrics = count_creation w.metrics })

    pub updated :
        content_changed (some content) current.content ≡ true
        → version_row w.db x.id (suc x.version_counter) ≡ none
        → Updated made
    unfolding update_rows write_title write_version after_commit model_dump
    updated changed free =
        let row = (owned_row B w.db x.id user owned).0 in
        let d₁ = update_snippet_row x.id (set_title title) w.db in
        let row₁ = by_id-change B w.db x.id (set_title title) row in
        let (c, ran) =
          created B d₁ retitled content none row₁
            (B.version_row-update_snippet_row _ _ _ _ _ ∙ free) in
        record {
          d' = c.d';
          row = c.row;
          others = λ j other.
              c.others j other
              ∙ B.by_id-update_snippet_row x.id (set_title title) w.db j
              ∙ rw other;
          short = λ e. c.short (by_short_id-change B w.db x (set_title title) e);
          versions = λ j n. c.versions j n ∙ rw (B.version_row-update_snippet_row);
          goes_on =
              update_finds x.id (model_dump payload) user w owned at
              ∙ rw (changed, ran, c.row, update_rows, write_version, after_commit);
        }

    -- The same content: only the title is written.
    pub kept :
        content_changed (some content) current.content ≡ false
        → let d' = update_snippet_row x.id (set_title title) w.db in
          update_snippet B R settings x.id (model_dump payload) user w
          ≡ refresh_cache B R settings retitled current (record w { db = d' })
    unfolding update_rows write_title write_version after_commit model_dump
    kept same =
        let row = (owned_row B w.db x.id user owned).0 in
        let row₁ = by_id-change B w.db x.id (set_title title) row in
        update_finds x.id (model_dump payload) user w owned at
        ∙ rw (
          same,
          row₁,
          B.version_row-update_snippet_row x.id (set_title title) w.db x.id x.version_counter,
          at,
          update_rows,
          write_version,
          after_commit,
        )
