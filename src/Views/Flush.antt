-- ===== src/Views/Flush.antt =====
-- Where the counted views end up.
use mathlib.Core.Option
use swiftpaste.Prelude.{
  ℕ, ◌+◌, String, ◌≡◌, refl, ◌∙◌, sym, ap, none, List, [], ◌∷◌, ◌==◌, if◌then◌else◌, arith,
  Bool-cases, Option-cases, inl, inr,
}
use swiftpaste.Core.Config.{Settings}
use swiftpaste.Prelude.Split.{last_part}
use swiftpaste.Search.{has}
use swiftpaste.Jobs.Store.{JobStore}
use swiftpaste.Models.{set_views}
use swiftpaste.Snippets.Backend.{Backend}
use swiftpaste.Snippets.Common.{select_by_short_id}
use swiftpaste.Snippets.Consistent.{IsConsistent, changed-IsConsistent}
use swiftpaste.Views.{ViewStore, increments, add_views, flush_rows, delete_keys, flush_views_to_db}
use swiftpaste.Views.Gains.{viewed, pending, add_views-rows}

module _ (V : ViewStore) (B : Backend) where
  open B use {Db, by_id, by_short_id, update_snippet_row}

  add_views-IsConsistent :
      (keys : List String) (s : V.Store) (d : Db)
      → IsConsistent B d
      → IsConsistent B (add_views V B keys s d).0
  unfolding add_views
  add_views-IsConsistent [] s d h = h
  add_views-IsConsistent (key ∷ keys) s d h = elim (Option-cases (V.get key s)) [
    | inl none_left ↦ rw (none_left, add_views) (add_views-IsConsistent keys s d h)
    | inr (n, counted) ↦ elim (Option-cases (select_by_short_id B d (last_part key))) [
      | inl missing ↦ rw (counted, missing, add_views) (add_views-IsConsistent keys s d h)
      | inr (x, found) ↦
          rw (counted, found, add_views)
            (add_views-IsConsistent keys s (update_snippet_row x.id (set_views (x.views + n)) d)
              (changed-IsConsistent B x.id (set_views (x.views + n)) d h (λ y. refl)))
    ]
  ]

  -- With no flushed row there is nothing to commit.
  unflushed :
      (keys : List String) (s : V.Store) (d : Db)
      → (add_views V B keys s d).1 ≡ 0
      → (add_views V B keys s d).0 ≡ d
  unfolding add_views
  unflushed [] s d e = refl
  unflushed (key ∷ keys) s d e = elim (Option-cases (V.get key s)) [
    | inl none_left ↦
        rw (none_left, add_views) (unflushed keys s d (rw (none_left, add_views) at e))
    | inr (n, counted) ↦ elim (Option-cases (select_by_short_id B d (last_part key))) [
      | inl missing ↦
          rw (counted, missing, add_views)
            (unflushed keys s d (rw (counted, missing, add_views) at e))
      | inr (x, found) ↦ cc (rw (counted, found, add_views) at e)
    ]
  ]

  flush_rows-add_views :
      (keys : List String) (s : V.Store) (d : Db)
      → flush_rows V B keys s d ≡ (add_views V B keys s d).0
  unfolding flush_rows
  flush_rows-add_views keys s d = elim (Bool-cases ((add_views V B keys s d).1 == 0)) [
    | inl nothing ↦ rw nothing (sym (unflushed keys s d (ground (arith, nothing))))
    | inr some_ ↦ rw some_ refl
  ]

  get-delete_keys :
      (ks : List String) (s : V.Store) (k : String)
      → V.get k (delete_keys V ks s) ≡ (if has k ks then none else V.get k s)
  unfolding delete_keys
  get-delete_keys [] s k = refl
  get-delete_keys (j ∷ ks) s k =
      ground (arith, get-delete_keys ks (V.delete j s) k, V.get-delete j s k)

-- In consistent tables, and whatever views are counted while it runs: a flush gives each live snippet the
-- views that the counters ending in its short id held at the start, and no row any other change; the tables
-- stay consistent; each counter that was there at the start is gone, with the late views on it, which no
-- row gets, and the others stay.
pub flush_accounts :
    (V : ViewStore) (B : Backend) (R : JobStore) (settings : Settings) (id : String) (now : ℕ)
    (late : List String) (d : B.Db) (s : V.Store) (jobs : R.Store)
    → IsConsistent B d
    → let (d', s', _) = flush_views_to_db V B R settings id now late (d, s, jobs) in
      ((k : String)
        → B.by_short_id d' k ≡ Option.map (viewed (pending V (V.keys s) s k)) (B.by_short_id d k))
      × IsConsistent B d'
      × ((k : String)
          → V.get k s' ≡ (if has k (V.keys s) then none else V.get k (increments V late s)))
unfolding flush_views_to_db
flush_accounts V B R settings id now late d s jobs h =
    let flushed = flush_rows-add_views V B (V.keys s) s d in
    (
      λ k. ap (λ rows. B.by_short_id rows k) flushed ∙ add_views-rows V B (V.keys s) s d h k,
      rw flushed (add_views-IsConsistent V B (V.keys s) s d h),
      λ k. get-delete_keys V B (V.keys s) (increments V late s) k,
    )
