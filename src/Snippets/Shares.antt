-- ===== src/Snippets/Shares.antt =====
-- What sharing, deleting and a stranger's calls change.
use mathlib.Core.Option
use text.Mathlib.TextPositions.{eq_refl}
use Prim.Native.Nat.{◌/◌}
use swiftpaste.Prelude.{
  ℕ, String, ◌≡◌, refl, false, Option, none, some, arith, str_eq, str_append, if◌then◌else◌,
}
use swiftpaste.Core.Config.{Settings}
use swiftpaste.Core.Errors.{ok, err, app}
use swiftpaste.Jobs.Store.{JobStore, snippet_fields}
use swiftpaste.Jobs.Queue.{enqueue}
use swiftpaste.Prelude.Int.{pos}
use swiftpaste.Models.{Snippet, SnippetVersion, User, SnippetOut, UpdateData, change, mark_deleted}
use swiftpaste.Snippets.Backend.{Backend}
use swiftpaste.Snippets.Common.{World, snippet_not_found, select_owned}
use swiftpaste.Snippets.View.{snippet_out_view}
use swiftpaste.Snippets.Update.{update_snippet}
use swiftpaste.Snippets.Delete.{
  content_text, compute_expires_at, expiry_key, delete_snippet, snippet_out_url,
}
use swiftpaste.Snippets.Versions.{owned_row, by_short_id-change}

module _ (B : Backend) (R : JobStore) (settings : Settings) where
  open B use {Db, by_id, by_short_id, version_row}

  -- What an id answers to a user whose select finds nothing: each operation refuses and changes nothing.
  abbrev pub Refuses : String → User → World B R → Type 0
  Refuses id user w =
      ((data_ : UpdateData)
        → update_snippet B R settings id data_ user w
          ≡ (err (app (snippet_not_found "Snippet not found")), w))
      × ((uuid : String) (now : ℕ)
          → delete_snippet B R settings uuid now id user w
            ≡ (err (app (snippet_not_found "Snippet not found")), w))
      × ((now : ℕ) (version : Option ℕ) (payload : SnippetOut)
          → snippet_out_url B R settings now id version payload user w
            ≡ (err (app (snippet_not_found "Snippet not found or you don't have access")), w))

  unowned-Refuses :
      (id : String) (user : User) (w : World B R)
      → select_owned B w.db id user ≡ none
      → Refuses id user w
  unfolding update_snippet delete_snippet snippet_out_url
  unowned-Refuses id user w missing = (
    λ data_. rw (missing, update_snippet),
    λ uuid now. rw (missing, delete_snippet),
    λ now version payload. rw (missing, snippet_out_url),
  )

  -- To a user who is not the author, updating, deleting and sharing a snippet all answer that it is not
  -- found, and change nothing.
  pub strangers_change_nothing :
      (id : String) (user : User) (w : World B R) (x : Snippet)
      → by_id w.db id ≡ some x
      → str_eq x.author_id user.id ≡ false
      → Refuses id user w
  strangers_change_nothing id user w x row other =
      unowned-Refuses id user w (rw row (rw other (ground arith)))

  abbrev pub deleted : String → ℕ → Snippet → World B R → World B R
  deleted uuid now x w =
      let content = content_text (version_row w.db x.id x.version_counter) in
      record w {
        db = B.update_snippet_row x.id (mark_deleted now) w.db;
        jobs =
            enqueue R settings uuid now "remove_snippet_index"
              (snippet_fields x.id x.short_id (str_append x.title (str_append " " content))) 0
              (pos 3) w.jobs;
      }

  pub delete_owned :
      (uuid : String) (now : ℕ) (user : User) (w : World B R) (x : Snippet)
      → select_owned B w.db x.id user ≡ some x
      → delete_snippet B R settings uuid now x.id user w ≡ (ok tt, deleted uuid now x w)
  unfolding delete_snippet
  delete_owned uuid now user w x owned = rw (owned, delete_snippet)

  -- After an author has deleted a snippet that its short id finds, `snippet_out_view`, which reads the
  -- tables, tells every caller for every version that it is not found, and updating, deleting and
  -- sharing its id are refused for every user, the author too; its row is marked, the rows of other
  -- snippets and all versions stay. Responses that Redis has kept are not part of this.
  pub delete_hides :
      (uuid : String) (now : ℕ) (user : User) (w : World B R) (x : Snippet)
      → select_owned B w.db x.id user ≡ some x
      → by_short_id w.db x.short_id ≡ some x
      → let (result, w') = delete_snippet B R settings uuid now x.id user w in
        (result ≡ ok tt)
        × ((version : Option ℕ) (caller : Option User) (t : ℕ)
            → snippet_out_view B x.short_id version caller t w'.db
              ≡ err (app (snippet_not_found "Snippet or requested version not found")))
        × ((caller : User) → Refuses x.id caller w')
        × ((j : String)
            → by_id w'.db j ≡ (
                if str_eq x.id j
                then Option.map (change (mark_deleted now)) (by_id w.db j)
                else by_id w.db j))
        × ((j : String) (n : ℕ) → version_row w'.db j n ≡ version_row w.db j n)
  unfolding snippet_out_view
  delete_hides uuid now user w x owned short =
      let d = B.update_snippet_row x.id (mark_deleted now) w.db in
      let gone = by_short_id-change B w.db x (mark_deleted now) short in
      let row = (owned_row B w.db x.id user owned).0 in
      rw (delete_owned uuid now user w x owned) (
        refl,
        λ version caller t. rw (gone, snippet_out_view),
        λ caller.
            unowned-Refuses x.id caller (deleted uuid now x w)
              (rw (B.by_id-update_snippet_row, eq_refl, row) refl),
        λ j. B.by_id-update_snippet_row x.id (mark_deleted now) w.db j,
        λ j n. B.version_row-update_snippet_row x.id (mark_deleted now) w.db j n,
      )

  -- What sharing writes: the expiry of the version, and its member in the sorted set.
  abbrev shared : ℕ → Snippet → SnippetVersion → ℕ → ℕ → World B R → World B R
  shared now x v n ttl w = record w {
    db = B.update_expiry x.id n (compute_expires_at now ttl) w.db;
    expiry =
        B.expiry_zadd (expiry_key x.short_id v.version) (compute_expires_at now ttl / 1000)
          w.expiry;
  }
