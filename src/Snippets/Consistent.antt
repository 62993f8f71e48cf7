-- ===== src/Snippets/Consistent.antt =====
-- The two tables agree: each index finds a row under its own key, and a snippet has the versions from 1
-- to its counter and no other. The writes of the service keep that.
use mathlib.Core.Option
use swiftpaste.Prelude.{
  ℕ, String, ◌≡◌, refl, ◌∙◌, sym, ap, Bool, true, false, ◌&&◌, Option, none, some, arith, str_eq,
  leb, ◌==◌, if◌then◌else◌, Option-cases, inl, inr,
}
use swiftpaste.Models.{
  Snippet, SnippetVersion, SnippetChange, count_version, set_title, mark_deleted, set_views, change,
}
use swiftpaste.Snippets.Backend.{Backend, set_expiry}

abbrev pub counter_of : Option Snippet → ℕ
counter_of none = 0
counter_of (some x) = x.version_counter

abbrev pub is_there {ℓ} : {A : Type ℓ} → Option A → Bool
is_there none = false
is_there (some _) = true

abbrev pub HasKey : String → ℕ → Option SnippetVersion → Type 0
HasKey i n none = Unit
HasKey i n (some v) = (v.snippet_id ≡ i) × (v.version ≡ n)

module _ (B : Backend) where
  open B use {Db, by_id, by_short_id, version_row, update_snippet_row, update_expiry}

  abbrev pub ShortAgrees : Db → String → Option Snippet → Type 0
  ShortAgrees d k none = Unit
  ShortAgrees d k (some x) = (x.short_id ≡ k) × (by_id d x.id ≡ some x)

  abbrev pub IdAgrees : Db → Option Snippet → Type 0
  IdAgrees d none = Unit
  IdAgrees d (some x) = by_short_id d x.short_id ≡ some x

  pub record IsConsistent (d : Db) : Type 0 where
    pub short_ids : (k : String) → ShortAgrees d k (by_short_id d k)
    pub ids : (i : String) → IdAgrees d (by_id d i)
    pub numbers :
        (i : String) (n : ℕ)
        → is_there (version_row d i n) ≡ (leb 1 n && leb n (counter_of (by_id d i)))
    pub keys : (i : String) (n : ℕ) → HasKey i n (version_row d i n)

  pub found_short :
      {d : Db} (h : IsConsistent d) (k : String) {x : Snippet}
      → by_short_id d k ≡ some x
      → (x.short_id ≡ k) × (by_id d x.id ≡ some x)
  found_short {d} h k e = rw e at (h.short_ids k)

  pub found_id :
      {d : Db} (h : IsConsistent d) (i : String) {x : Snippet}
      → by_id d i ≡ some x
      → by_short_id d x.short_id ≡ some x
  found_id {d} h i e = rw e at (h.ids i)

  -- The same from the two facts.
  pub shorts_of :
      (d : Db) (k : String) (o : Option Snippet)
      → ((x : Snippet) → o ≡ some x → (x.short_id ≡ k) × (by_id d x.id ≡ some x))
      → ShortAgrees d k o
  shorts_of d k none h = tt
  shorts_of d k (some x) h = h x refl

  pub ids_of :
      (d : Db) (o : Option Snippet)
      → ((x : Snippet) → o ≡ some x → by_short_id d x.short_id ≡ some x)
      → IdAgrees d o
  ids_of d none h = tt
  ids_of d (some x) h = h x refl

  -- An update of rows, as a function on each row.
  abbrev pub touch : String → SnippetChange → Snippet → Snippet
  touch i c x = if str_eq i x.id then change c x else x

  touch_keeps :
      (i : String) (c : SnippetChange) (x : Snippet)
      → ((touch i c x).id ≡ x.id) × ((touch i c x).short_id ≡ x.short_id)
  touch_keeps i count_version x = ground arith
  touch_keeps i (set_title t) x = ground arith
  touch_keeps i (mark_deleted t) x = ground arith
  touch_keeps i (set_views n) x = ground arith

  pub by_id-touch :
      (i : String) (c : SnippetChange) (d : Db) (j : String)
      → by_id (update_snippet_row i c d) j ≡ Option.map (touch i c) (by_id d j)
  by_id-touch i c d j = elim (Option-cases (by_id d j)) [
    | inl missing ↦ rw (B.by_id-update_snippet_row, missing) (ground arith)
    | inr (x, row) ↦ rw (B.by_id-update_snippet_row, row) (ground (arith, B.id-by_id d j row))
  ]

  map-some :
      (f : Snippet → Snippet) (o : Option Snippet) {y : Snippet}
      → Option.map f o ≡ some y
      → (x : Snippet) × (o ≡ some x) × (y ≡ f x)
  map-some f none e = cc
  map-some f (some x) e = (x, refl, some_injective (sym e))
    where
      some_injective : {a b : Snippet} → some a ≡ some b → a ≡ b
      some_injective e = cc

  -- The indexes stay in agreement where each row changes under its keys.
  module _ (f : Snippet → Snippet)
      (f_keeps : (x : Snippet) → ((f x).id ≡ x.id) × ((f x).short_id ≡ x.short_id)) (d d' : Db)
      (id_rows : (j : String) → by_id d' j ≡ Option.map f (by_id d j))
      (short_rows : (k : String) → by_short_id d' k ≡ Option.map f (by_short_id d k))
      (h : IsConsistent d) where
    mapped_shorts : (k : String) → ShortAgrees d' k (by_short_id d' k)
    mapped_shorts k = shorts_of d' k (by_short_id d' k) (λ y e.
        let (x, old, is) = map-some f (by_short_id d k) (sym (short_rows k) ∙ e) in
        let (short, row) = found_short h k old in
        rw is (
          (f_keeps x).1 ∙ short,
          ap (by_id d') (f_keeps x).0 ∙ id_rows x.id ∙ ap (Option.map f) row,
        ))

    mapped_ids : (i : String) → IdAgrees d' (by_id d' i)
    mapped_ids i = ids_of d' (by_id d' i) (λ y e.
        let (x, old, is) = map-some f (by_id d i) (sym (id_rows i) ∙ e) in
        rw is (
          ap (by_short_id d') (f_keeps x).1
          ∙ short_rows x.short_id
          ∙ ap (Option.map f) (found_id h i old)))

  module _ (i : String) (c : SnippetChange) (d : Db) (h : IsConsistent d) where
    pub changed_shorts :
        (k : String)
        → ShortAgrees (update_snippet_row i c d) k (by_short_id (update_snippet_row i c d) k)
    changed_shorts =
        mapped_shorts (touch i c) (touch_keeps i c) d (update_snippet_row i c d) (by_id-touch i c d)
          (B.by_short_id-update_snippet_row i c d) h

    pub changed_ids :
        (j : String) → IdAgrees (update_snippet_row i c d) (by_id (update_snippet_row i c d) j)
    changed_ids =
        mapped_ids (touch i c) (touch_keeps i c) d (update_snippet_row i c d) (by_id-touch i c d)
          (B.by_short_id-update_snippet_row i c d) h

    pub changed-IsConsistent :
        ((x : Snippet) → (change c x).version_counter ≡ x.version_counter)
        → IsConsistent (update_snippet_row i c d)
    changed-IsConsistent same = record {
      short_ids = changed_shorts;
      ids = changed_ids;
      numbers = λ j n.
          rw (B.version_row-update_snippet_row, by_id-touch)
            (rw (counter_touched (by_id d j)) (h.numbers j n));
      keys = λ j n. rw (B.version_row-update_snippet_row) (h.keys j n);
    }
      where
        counter_touched :
            (o : Option Snippet) → counter_of (Option.map (touch i c) o) ≡ counter_of o
        counter_touched none = refl
        counter_touched (some x) = ground (arith, same x)

  pub expired-IsConsistent :
      (i : String) (m t : ℕ) (d : Db) → IsConsistent d → IsConsistent (update_expiry i m t d)
  expired-IsConsistent i m t d h = record {
    short_ids = λ k. rw (B.by_short_id-update_expiry) (
        shorts_of _ k (by_short_id d k) (λ x e.
          let (short, row) = found_short h k e in
          (short, B.by_id-update_expiry i m t d x.id ∙ row)));
    ids = λ j. rw (B.by_id-update_expiry) (
        ids_of _ (by_id d j)
          (λ x e. B.by_short_id-update_expiry i m t d x.short_id ∙ found_id h j e));
    numbers = λ j n.
        rw (B.version_row-update_expiry, B.by_id-update_expiry)
          (there_expired (str_eq i j && m == n) (version_row d j n) ∙ h.numbers j n);
    keys = λ j n.
        rw (B.version_row-update_expiry)
          (keyed (str_eq i j && m == n) j n (version_row d j n) (h.keys j n));
  }
    where
      there_expired :
          (b : Bool) (o : Option SnippetVersion)
          → is_there (if b then Option.map (set_expiry t) o else o) ≡ is_there o
      there_expired true none = refl
      there_expired true (some v) = refl
      there_expired false o = refl

      keyed :
          (b : Bool) (j : String) (n : ℕ) (o : Option SnippetVersion)
          → HasKey j n o
          → HasKey j n (if b then Option.map (set_expiry t) o else o)
      keyed true j n none k = tt
      keyed true j n (some v) k = k
      keyed false j n o k = k
