-- ===== src/Views/Gains.antt =====
-- The views that a flush adds to the rows.
use mathlib.Core.Option
use text.Mathlib.TextPositions.{eq_refl}
use swiftpaste.Prelude.{
  ℕ, ◌+◌, String, ◌≡◌, refl, ◌∙◌, sym, ap, true, Option, none, some, List, [], ◌∷◌, str_eq,
  if◌then◌else◌, arith, Bool-cases, Option-cases, inl, inr, eq_iff,
}
use swiftpaste.Prelude.Split.{last_part}
use swiftpaste.Models.{Snippet, set_views}
use swiftpaste.Snippets.Backend.{Backend}
use swiftpaste.Snippets.Common.{is_live, keep_if, select_by_short_id}
use swiftpaste.Snippets.Consistent.{IsConsistent, found_short, changed-IsConsistent}
use swiftpaste.Views.{ViewStore, add_views}

-- A live snippet with more views; one that is marked deleted is not found and gets none.
abbrev pub viewed : ℕ → Snippet → Snippet
viewed n x = if is_live x then record x { views = x.views + n } else x

abbrev pub or_zero : Option ℕ → ℕ
or_zero none = 0
or_zero (some n) = n

-- What the counters of the keys that end in a short id come to.
unfoldable pub pending : (V : ViewStore) → List String → V.Store → String → ℕ
pending V [] s short_id = 0
pending V (key ∷ keys) s short_id =
    let rest = pending V keys s short_id in
    if str_eq (last_part key) short_id then or_zero (V.get key s) + rest else rest

viewed_none : (o : Option Snippet) → Option.map (viewed 0) o ≡ o
viewed_none none = refl
viewed_none (some x) = ground arith

viewed_twice :
    (m n : ℕ) (o : Option Snippet)
    → Option.map (viewed n) (Option.map (viewed m) o) ≡ Option.map (viewed (m + n)) o
viewed_twice m n none = refl
viewed_twice m n (some x) = elim (Bool-cases (is_live x)) [
  | inl live ↦
      let more : x.views + m + n ≡ x.views + (m + n) = omega arith in
      rw (live, live) (ap (λ k. some (record x { views = k })) more)
  | inr gone ↦ rw (gone, gone) refl
]

-- No live row: nothing gets more views.
unseen : (m : ℕ) (o : Option Snippet) → keep_if is_live o ≡ none → Option.map (viewed m) o ≡ o
unseen m none e = refl
unseen m (some x) e = ground arith

seen :
    (o : Option Snippet) {x : Snippet}
    → keep_if is_live o ≡ some x
    → (o ≡ some x) × (is_live x ≡ true)
seen none e = cc
seen (some y) e = ground arith

pending_nil : (V : ViewStore) (s : V.Store) (k : String) → pending V [] s k ≡ 0
unfolding pending
pending_nil V s k = refl

pending_of_none :
    (V : ViewStore) (key : String) (keys : List String) (s : V.Store) (k : String)
    → V.get key s ≡ none
    → pending V (key ∷ keys) s k ≡ pending V keys s k
unfolding pending
pending_of_none V key keys s k e = ground (arith, e)

pending_of_some :
    (V : ViewStore) (key : String) (keys : List String) (s : V.Store) (k : String) {n : ℕ}
    → V.get key s ≡ some n
    → pending V (key ∷ keys) s k ≡ (if str_eq (last_part key) k then n else 0) + pending V keys s k
unfolding pending
pending_of_some V key keys s k e = ground (arith, e)

module _ (B : Backend) where
  open B use {Db, by_id, by_short_id, update_snippet_row}

  same_short :
      (d : Db)
      → IsConsistent B d
      → (j k : String) {x y : Snippet} → by_short_id d j ≡ some x
      → by_short_id d k ≡ some y
      → str_eq x.id y.id ≡ true
      → j ≡ k
  same_short d h j k {x} {y} row other hit =
      let (short_x, id_x) = found_short B h j row in
      let (short_y, id_y) = found_short B h k other in
      cc (sym id_x ∙ ap (by_id d) ((eq_iff x.id y.id).0 hit) ∙ id_y, short_x, short_y)

  nobody_gains :
      (d : Db) (n : ℕ) (short_id : String)
      → select_by_short_id B d short_id ≡ none
      → (k : String)
      → Option.map (viewed (if str_eq short_id k then n else 0)) (by_short_id d k) ≡ by_short_id d k
  nobody_gains d n short_id missing k = elim (Bool-cases (str_eq short_id k)) [
    | inl same ↦
        rw (same, sym ((eq_iff short_id k).0 same)) (unseen n (by_short_id d short_id) missing)
    | inr differ ↦ rw differ (viewed_none (by_short_id d k))
  ]

  -- The row that is found gets the views, and no other row.
  row_gains :
      (d : Db) (n : ℕ) (short_id : String) {x : Snippet}
      → IsConsistent B d
      → select_by_short_id B d short_id ≡ some x
      → (k : String)
      → by_short_id (update_snippet_row x.id (set_views (x.views + n)) d) k
        ≡ Option.map (viewed (if str_eq short_id k then n else 0)) (by_short_id d k)
  row_gains d n short_id {x} h found k =
      let (row, live) = seen (by_short_id d short_id) found in
      elim (Option-cases (by_short_id d k)) [
        | inl missing ↦ rw (B.by_short_id-update_snippet_row, missing) refl
        | inr (y, other) ↦ elim (Bool-cases (str_eq short_id k)) [
          | inl same ↦
              let at : by_short_id d k ≡ some x =
                ap (by_short_id d) (sym ((eq_iff short_id k).0 same)) ∙ row in
              rw (B.by_short_id-update_snippet_row, at, same) (ground (arith, eq_refl x.id))
          | inr differ ↦ elim (Bool-cases (str_eq x.id y.id)) [
            | inl hit ↦ cc ((eq_iff short_id k).1 (same_short d h short_id k row other hit), differ)
            | inr miss ↦
                rw (B.by_short_id-update_snippet_row, other, differ)
                  (rw miss (sym (viewed_none (some y))))
          ]
        ]
      ]

module _ (V : ViewStore) (B : Backend) where
  open B use {Db, by_id, by_short_id, update_snippet_row}

  pub add_views-rows :
      (keys : List String) (s : V.Store) (d : Db)
      → IsConsistent B d
      → (k : String)
      → by_short_id (add_views V B keys s d).0 k
        ≡ Option.map (viewed (pending V keys s k)) (by_short_id d k)
  unfolding add_views
  add_views-rows [] s d h k = sym (
      ap (λ m. Option.map (viewed m) (by_short_id d k)) (pending_nil V s k)
      ∙ viewed_none (by_short_id d k))
  add_views-rows (key ∷ keys) s d h k = elim (Option-cases (V.get key s)) [
    | inl none_left ↦
        rw (none_left, add_views)
          (add_views-rows keys s d h k
            ∙ ap (λ m. Option.map (viewed m) (by_short_id d k))
                (sym (pending_of_none V key keys s k none_left)))
    | inr (n, counted) ↦ elim (Option-cases (select_by_short_id B d (last_part key))) [
      | inl missing ↦
          rw (counted, missing, add_views)
            (add_views-rows keys s d h k
              ∙ ap (Option.map (viewed (pending V keys s k)))
                  (sym (nobody_gains B d n (last_part key) missing k))
              ∙ viewed_twice (if str_eq (last_part key) k then n else 0) (pending V keys s k)
                  (by_short_id d k)
              ∙ ap (λ m. Option.map (viewed m) (by_short_id d k))
                  (sym (pending_of_some V key keys s k counted)))
      | inr (x, found) ↦
          let d' = update_snippet_row x.id (set_views (x.views + n)) d in
          let h' : IsConsistent B d' =
            changed-IsConsistent B x.id (set_views (x.views + n)) d h (λ y. refl) in
          rw (counted, found, add_views)
            (add_views-rows keys s d' h' k
              ∙ ap (Option.map (viewed (pending V keys s k)))
                  (row_gains B d n (last_part key) h found k)
              ∙ viewed_twice (if str_eq (last_part key) k then n else 0) (pending V keys s k)
                  (by_short_id d k)
              ∙ ap (λ m. Option.map (viewed m) (by_short_id d k))
                  (sym (pending_of_some V key keys s k counted)))
    ]
  ]
