-- ===== src/Snippets/Pages.antt =====
-- The pages of a user with two snippets.
use swiftpaste.Prelude.{
  ℕ, suc, ◌+◌, ◌*◌, ◌-◌, ◌≤◌, ◌∙◌, ap, leb, String, ◌≡◌, refl, true, none, some, List, [], ◌∷◌,
  arith, str_eq, eq_iff, if◌then◌else◌, Bool-cases, inl, inr,
}
use swiftpaste.Prelude.Lists.{length, one_if}
use swiftpaste.Models.{Snippet, User}
use swiftpaste.Snippets.Common.{select_owned}
use swiftpaste.Snippets.Model.{Tables, in_memory}
use swiftpaste.Snippets.Listing.{
  Page, Params, take, drop, times, is_newest_first, Listing, get_all_snippet,
}
use swiftpaste.Snippets.Listed.{shown, shows_newest_first, pages_show_own}

abbrev row_of : String → String → ℕ → Snippet
row_of id short_id created = record {
  id = id;
  short_id = short_id;
  title = "t";
  author_id = "ann";
  created_at = created;
  version_counter = 1;
  views = 0;
  deleted_at = none;
}

abbrev older : Snippet
older = row_of "i1" "aaaaaaaa" 5

abbrev newer : Snippet
newer = row_of "i2" "bbbbbbbb" 7

abbrev tables : Tables
tables = record {
  ids = λ i. if str_eq "i1" i then some older else if str_eq "i2" i then some newer else none;
  short_ids = λ k. none;
  versions = λ i n. none;
}

abbrev all_rows : List Snippet
all_rows = older ∷ newer ∷ []

times-all_rows : (i : String) → times i all_rows ≡ one_if (in_memory.by_id tables i)
times-all_rows i = elim (Bool-cases (str_eq "i1" i)) [
  | inl first ↦ rw (first, ← (eq_iff "i1" i).0 first) refl
  | inr not_first ↦ elim (Bool-cases (str_eq "i2" i)) [
    | inl second ↦ rw (not_first, second) refl
    | inr not_second ↦ rw (not_first, not_second) refl
  ]
]

-- Each row goes before the first one that is not newer.
abbrev place : Snippet → List Snippet → List Snippet
place x [] = x ∷ []
place x (y ∷ l) = if leb y.created_at x.created_at then x ∷ y ∷ l else y ∷ place x l

abbrev newest_first : List Snippet → List Snippet
newest_first [] = []
newest_first (x ∷ l) = place x (newest_first l)

times-place : (i : String) (x : Snippet) (l : List Snippet) → times i (place x l) ≡ times i (x ∷ l)
times-place i x [] = refl
times-place i x (y ∷ l) = elim (Bool-cases (leb y.created_at x.created_at)) [
  | inl newer_ ↦ rw newer_ refl
  | inr older_ ↦ rw older_ (omega (arith, times-place i x l))
]

times-newest_first : (i : String) (l : List Snippet) → times i (newest_first l) ≡ times i l
times-newest_first i [] = refl
times-newest_first i (x ∷ l) =
    times-place i x (newest_first l)
    ∙ ap (λ (n : ℕ). (if str_eq x.id i then 1 else 0) + n) (times-newest_first i l)

place-is_newest_first :
    (x : Snippet) (l : List Snippet) → is_newest_first l ≡ true → is_newest_first (place x l) ≡ true
place-is_newest_first x [] sorted = refl
place-is_newest_first x (y ∷ []) sorted = ground arith
place-is_newest_first x (y ∷ z ∷ l) sorted = elim (Bool-cases (leb y.created_at x.created_at)) [
  | inl newer_ ↦ rw (newer_, newer_) sorted
  | inr older_ ↦
      let rest = place-is_newest_first x (z ∷ l) (ground (arith, sorted)) in
      rw older_ (ground (arith, older_, sorted, rest))
]

newest_first-is_newest_first : (l : List Snippet) → is_newest_first (newest_first l) ≡ true
newest_first-is_newest_first [] = refl
newest_first-is_newest_first (x ∷ l) =
    place-is_newest_first x (newest_first l) (newest_first-is_newest_first l)

abbrev page_of : {A : Type 0} → Params → List A → Page A
page_of p l = record { items = take p.size (drop ((p.page - 1) * p.size) l); total = length l }

items-page_of :
    {A : Type 0} (page size : ℕ) (l : List A)
    → (page_of (record { page = suc page; size = size }) l).items ≡ take size (drop (page * size) l)
items-page_of page size l = let e : suc page - 1 ≡ page = omega arith in rw e refl

abbrev listing : Listing in_memory tables
listing = record {
  rows = all_rows;
  rows-AreRows = (refl, (refl, tt));
  times-rows = times-all_rows;
  order_by = λ p l. newest_first l;
  times-order_by = λ p i l. times-newest_first i l;
  order_by-is_newest_first = λ p l. newest_first-is_newest_first l;
  paginate = page_of;
  items-paginate = items-page_of;
  total-paginate = λ p l. refl;
}

abbrev ann : User
ann = record { id = "ann" }

pages_show_own_example :
    let second =
      (get_all_snippet in_memory tables listing ann (record { page = 2; size = 1 })).items in
    let first =
      (get_all_snippet in_memory tables listing ann (record { page = 1; size = 2 })).items in
    ((i : String)
      → shown in_memory tables listing ann i second ≤ one_if (select_owned in_memory tables i ann))
    × ((i : String)
        → shown in_memory tables listing ann i first ≡ one_if (select_owned in_memory tables i ann))
    × (shows_newest_first in_memory tables listing ann first ≡ true)
unfolding get_all_snippet
pages_show_own_example = pages_show_own in_memory tables listing ann 1 1 2 (omega arith)
