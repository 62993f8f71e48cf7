-- ===== src/Tasks/Hidden.antt =====
-- A snippet that is marked deleted stays so, whatever the worker runs.
use mathlib.Core.Option
use swiftpaste.Prelude.{
  ℕ, String, ◌≡◌, refl, Option, none, some, List, [], ◌∷◌, ◌+◌, ◌==◌, str_eq, if◌then◌else◌, arith,
  Bool-cases, Option-cases, inl, inr,
}
use swiftpaste.Prelude.Split.{last_part}
use swiftpaste.Core.Config.{Settings}
use swiftpaste.Models.{Snippet, set_views, change}
use swiftpaste.Jobs.Store.{JobStore}
use swiftpaste.Jobs.Keeps.{AllKeep}
use swiftpaste.Snippets.Backend.{Backend}
use swiftpaste.Snippets.Common.{is_live, keep_if, select_by_short_id}
use swiftpaste.Search.{IndexStore}
use swiftpaste.Expiry.{ExpiryStore}
use swiftpaste.Views.{ViewStore, add_views, flush_rows, flush_views_to_db}
use swiftpaste.Tasks.{
  TaskWorld, Surroundings, index_task, remove_task, cleanup_task, stuck_task, flush_task, all_tasks,
}

module _ (B : Backend) where
  -- No select finds the short id.
  abbrev pub IsHidden : String → B.Db → Type 0
  IsHidden short_id d = select_by_short_id B d short_id ≡ none

  still_none :
      (i : String) (n : ℕ) (o : Option Snippet)
      → keep_if is_live o ≡ none
      → keep_if is_live (Option.map (λ x. if str_eq i x.id then change (set_views n) x else x) o)
        ≡ none
  still_none i n none h = refl
  still_none i n (some x) h = ground (arith, h)

  IsHidden-set_views :
      (short_id i : String) (n : ℕ) (d : B.Db)
      → IsHidden short_id d
      → IsHidden short_id (B.update_snippet_row i (set_views n) d)
  IsHidden-set_views short_id i n d h =
      rw (B.by_short_id-update_snippet_row i (set_views n) d short_id)
        (still_none i n (B.by_short_id d short_id) h)

  module _ (V : ViewStore) where
    IsHidden-add_views :
        (short_id : String) (keys : List String) (s : V.Store) (d : B.Db)
        → IsHidden short_id d
        → IsHidden short_id (add_views V B keys s d).0
    unfolding add_views
    IsHidden-add_views short_id [] s d h = h
    IsHidden-add_views short_id (key ∷ keys) s d h = elim (Option-cases (V.get key s)) [
      | inl gone ↦ rw (gone, add_views) (IsHidden-add_views short_id keys s d h)
      | inr (n, there) ↦ elim (Option-cases (select_by_short_id B d (last_part key))) [
        | inl unknown ↦ rw (there, unknown, add_views) (IsHidden-add_views short_id keys s d h)
        | inr (x, known) ↦
            rw (there, known, add_views)
              (IsHidden-add_views short_id keys s
                (B.update_snippet_row x.id (set_views (x.views + n)) d)
                (IsHidden-set_views short_id x.id (x.views + n) d h))
      ]
    ]

    IsHidden-flush_rows :
        (short_id : String) (keys : List String) (s : V.Store) (d : B.Db)
        → IsHidden short_id d
        → IsHidden short_id (flush_rows V B keys s d)
    unfolding flush_rows
    IsHidden-flush_rows short_id keys s d h = elim (Bool-cases ((add_views V B keys s d).1 == 0)) [
      | inl nothing ↦ rw nothing h
      | inr rows ↦ rw rows (IsHidden-add_views short_id keys s d h)
    ]

module _ (R : JobStore) (settings : Settings) (I : IndexStore) (E : ExpiryStore) (V : ViewStore)
    (B : Backend) (around : Surroundings) (short_id : String) where
  -- No task brings a deleted snippet back.
  pub all_tasks-IsHidden :
      AllKeep R settings
        (TaskWorld I E V B)
        (all_tasks R I E V B around settings)
        (λ w. IsHidden B short_id w.db)
  unfolding index_task remove_task cleanup_task stuck_task flush_task flush_views_to_db
  all_tasks-IsHidden = record {
    index = λ p s w h. h;
    cleanup = λ p s w h. h;
    remove = λ p s w h. h;
    recover = λ p s w h. h;
    flush = λ p s w h. IsHidden-flush_rows B V short_id (V.keys w.views) w.views w.db h;
  }
