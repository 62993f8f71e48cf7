-- ===== src/Snippets/Grown.antt =====
-- New rows keep the tables consistent: a snippet with its first version, and a version under the next number.
use swiftpaste.Prelude.{
  ℕ, String, ◌≡◌, refl, ◌∙◌, sym, ap, Bool, true, false, ◌&&◌, Option, none, some, arith, str_eq,
  leb, ◌==◌, if◌then◌else◌, Bool-cases, inl, inr, eq_iff,
}
use swiftpaste.Models.{Snippet, SnippetVersion, SnippetCreate, count_version}
use swiftpaste.Snippets.Backend.{Backend, inserted}
use swiftpaste.Snippets.Create.{committed, insert_rows, first_version}
use swiftpaste.Snippets.Creates.{IsNew, insert_rows-IsNew}
use swiftpaste.Snippets.Consistent.{
  IsConsistent, HasKey, counter_of, is_there, found_short, found_id, shorts_of, ids_of, by_id-touch,
  changed_shorts, changed_ids,
}

module _ (B : Backend) where
  open B use {Db, by_id, by_short_id, version_row, update_snippet_row, update_expiry}

  -- A new version under its number.
  keyed_new :
      (v : SnippetVersion) (j : String) (n : ℕ) (o : Option SnippetVersion)
      → HasKey j n o
      → HasKey j n (if str_eq v.snippet_id j && v.version == n then some v else o)
  keyed_new v j n o k = elim (Bool-cases (str_eq v.snippet_id j && v.version == n)) [
    | inl hit ↦
        rw hit (ground (arith, eq_iff v.snippet_id j), ground (arith, eq_iff v.snippet_id j))
    | inr miss ↦ rw miss k
  ]

  there_new :
      (b : Bool) (v : SnippetVersion) (o : Option SnippetVersion)
      → is_there (if b then some v else o) ≡ (if b then true else is_there o)
  there_new true v o = refl
  there_new false v o = refl

  pub inserted-IsConsistent :
      (payload : SnippetCreate) (x : Snippet) (d d' : Db)
      → IsConsistent B d
      → x.version_counter ≡ 1
      → insert_rows B payload x d ≡ committed d'
      → IsConsistent B d'
  inserted-IsConsistent payload x d d' h one e =
      let new = insert_rows-IsNew B payload x d e in
      record {
        short_ids = λ k.
            shorts_of B d' k (by_short_id d' k)
              (λ y found. shorts new k y (sym (new.short_rows k) ∙ found));
        ids = λ i. ids_of B d' (by_id d' i) (λ y found. ids new i y (sym (new.rows i) ∙ found));
        numbers = λ i n.
            rw (new.versions, new.rows)
              (there_new (str_eq x.id i && 1 == n) (first_version payload x) (version_row d i n)
                ∙ numbered new i n);
        keys = λ i n.
            rw new.versions
              (keyed_new (first_version payload x) i n (version_row d i n) (h.keys i n));
      }
    where
      shorts :
          IsNew B payload x d d'
          → (k : String) (y : Snippet)
          → (if str_eq x.short_id k then some x else by_short_id d k) ≡ some y
          → (y.short_id ≡ k) × (by_id d' y.id ≡ some y)
      shorts new k y found = elim (Bool-cases (str_eq x.short_id k)) [
        | inl hit ↦
            let is : some x ≡ some y = rw hit at found in
            (ground (arith, eq_iff x.short_id k), new.rows y.id ∙ ground (arith, eq_iff x.id y.id))
        | inr miss ↦
            let old : by_short_id d k ≡ some y = rw miss at found in
            let (short, row) = found_short B h k old in
            (short, new.rows y.id ∙ ground (arith, row, new.id_free, eq_iff x.id y.id))
      ]

      ids :
          IsNew B payload x d d'
          → (i : String) (y : Snippet) → (if str_eq x.id i then some x else by_id d i) ≡ some y
          → by_short_id d' y.short_id ≡ some y
      ids new i y found = elim (Bool-cases (str_eq x.id i)) [
        | inl hit ↦
            let is : some x ≡ some y = rw hit at found in
            new.short_rows y.short_id ∙ ground (arith, eq_iff x.short_id y.short_id)
        | inr miss ↦
            let old : by_id d i ≡ some y = rw miss at found in
            new.short_rows y.short_id
            ∙ ground (arith, found_id B h i old, new.short_id_free, eq_iff x.short_id y.short_id)
      ]

      numbered :
          IsNew B payload x d d'
          → (i : String) (n : ℕ)
          → (if str_eq x.id i && 1 == n then true else is_there (version_row d i n))
            ≡ (leb 1 n && leb n (counter_of (if str_eq x.id i then some x else by_id d i)))
      numbered new i n = elim (Bool-cases (str_eq x.id i)) [
        | inl hit ↦
            let free : by_id d i ≡ none =
              ap (by_id d) (sym ((eq_iff x.id i).0 hit)) ∙ new.id_free in
            let nothing : is_there (version_row d i n) ≡ (leb 1 n && leb n 0) =
              rw free at (h.numbers i n) in
            rw hit (ground arith)
        | inr miss ↦ rw miss (h.numbers i n)
      ]

  pub added-IsConsistent :
      (i : String) (v : SnippetVersion) (d d₂ : Db) {row : Snippet}
      → IsConsistent B d
      → by_id (update_snippet_row i count_version d) i ≡ some row
      → v.snippet_id ≡ i
      → v.version ≡ row.version_counter
      → B.insert_version v (update_snippet_row i count_version d) ≡ inserted d₂
      → IsConsistent B d₂
  added-IsConsistent i v d d₂ {row} h found own number done =
      let d₁ = update_snippet_row i count_version d in
      record {
        short_ids = λ k. rw (B.by_short_id-insert_version v d₁ k done) (
            shorts_of B d₂ k (by_short_id d₁ k) (λ x e.
              let (short, at_) = rw e at (changed_shorts B i count_version d h k) in
              (short, B.by_id-insert_version v d₁ x.id done ∙ at_)));
        ids = λ j. rw (B.by_id-insert_version v d₁ j done) (
            ids_of B d₂ (by_id d₁ j) (λ x e.
              B.by_short_id-insert_version v d₁ x.short_id done
              ∙ (rw e at (changed_ids B i count_version d h j))));
        numbers = λ j n.
            rw
              (
                B.version_row-insert_version v d₁ j n done,
                B.by_id-insert_version v d₁ j done,
                B.version_row-update_snippet_row,
              )
              (there_new (str_eq v.snippet_id j && v.version == n) v (version_row d j n)
                ∙ ap (λ (b : Bool). if b then true else is_there (version_row d j n))
                    (same_number j n)
                ∙ numbered j n (by_id d j) refl);
        keys = λ j n.
            rw (B.version_row-insert_version v d₁ j n done, B.version_row-update_snippet_row)
              (keyed_new v j n (version_row d j n) (h.keys j n));
      }
    where
      same_number :
          (j : String) (n : ℕ)
          → (str_eq v.snippet_id j && v.version == n) ≡ (str_eq i j && row.version_counter == n)
      same_number j n = cc (own, number)

      numbered :
          (j : String) (n : ℕ) (o : Option Snippet)
          → by_id d j ≡ o
          → (if str_eq i j && row.version_counter == n then true else is_there (version_row d j n))
            ≡ (leb 1 n && leb n (counter_of (by_id (update_snippet_row i count_version d) j)))
      numbered j n none e = elim (Bool-cases (str_eq i j)) [
        | inl hit ↦ cc (found, by_id-touch B i count_version d i, e, (eq_iff i j).0 hit)
        | inr miss ↦ rw (by_id-touch, e, miss) (rw e at (h.numbers j n))
      ]
      numbered j n (some x) e = elim (Bool-cases (str_eq i j)) [
        | inl hit ↦ ground (
          arith,
          h.numbers j n,
          e,
          by_id-touch B i count_version d j,
          found,
          B.id-by_id d j e,
          eq_iff i j,
          eq_iff i x.id,
        )
        | inr miss ↦ ground (
          arith,
          h.numbers j n,
          e,
          by_id-touch B i count_version d j,
          B.id-by_id d j e,
          eq_iff i j,
          eq_iff i x.id,
        )
      ]
