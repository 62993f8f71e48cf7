-- ===== src/Snippets/Listed.antt =====
-- What the pages of a user's snippets show.
use mathlib.Core.List.{map}
use swiftpaste.Prelude.{
  ℕ, zero, suc, ◌+◌, ◌*◌, ◌≤◌, String, ◌≡◌, refl, ◌∙◌, sym, ap, Bool, true, ◌&&◌, List, [], ◌∷◌,
  some, leb, str_eq, eq_iff, if◌then◌else◌, arith, Bool-cases, Option-cases, inl, inr,
}
use swiftpaste.Prelude.Lists.{length, one_if}
use swiftpaste.Models.{Snippet, User}
use swiftpaste.Snippets.Backend.{Backend}
use swiftpaste.Snippets.Common.{select_owned}
use swiftpaste.Snippets.Listing.{
  SnippetMetaResponse, Params, take, drop, times, is_newest_first, keep, is_owned, AreRows, Listing,
  meta, get_all_snippet,
}

module _ {A : Type 0} where
  take-all : (n : ℕ) (l : List A) → length l ≤ n → take n l ≡ l
  take-all zero [] h = refl
  take-all zero (a ∷ l) h = absurd (ground (arith, h))
  take-all (suc n) [] h = refl
  take-all (suc n) (a ∷ l) h = ap (λ r. a ∷ r) (take-all n l (ground (arith, h)))

-- A row of the table passes `where` where the row that its id finds does.
module _ (B : Backend) (d : B.Db) (p : Snippet → Bool) (i : String) where
  times-keep-le : (l : List Snippet) → times i (keep p l) ≤ times i l
  times-keep-le [] = omega arith
  times-keep-le (x ∷ l) = elim (Bool-cases (p x)) [
    | inl passes ↦ rw passes (omega (arith, times-keep-le l))
    | inr fails ↦ rw fails (omega (arith, times-keep-le l))
  ]

  times-keep :
      (l : List Snippet) {x : Snippet}
      → AreRows B d l
      → B.by_id d i ≡ some x
      → times i (keep p l) ≡ (if p x then times i l else 0)
  times-keep [] {x} rows found = ground arith
  times-keep (y ∷ l) {x} (row, rows) found =
      let rest = times-keep l rows found in
      elim (Bool-cases (str_eq y.id i)) [
        | inl same ↦
            let e : y.id ≡ i = (eq_iff y.id i).0 same in
            let here : y ≡ x = some_injective (sym row ∙ ap (B.by_id d) e ∙ found) in
            rw (← here) (elim (Bool-cases (p y)) [
              | inl passes ↦
                  rw (passes, same) (ap (λ (n : ℕ). 1 + n) (rest ∙ rw (← here, passes) refl))
              | inr fails ↦ rw fails (rest ∙ rw (← here, fails) refl)
            ])
        | inr other ↦ ground (arith, other, rest)
      ]
    where
      some_injective : {a b : Snippet} → some a ≡ some b → a ≡ b
      some_injective e = cc

module _ (B : Backend) (d : B.Db) (L : Listing B d) (user : User) where
  times-owned :
      (i : String) → times i (keep (is_owned user) L.rows) ≡ one_if (select_owned B d i user)
  times-owned i = elim (Option-cases (B.by_id d i)) [
    | inl missing ↦
        let never : times i L.rows ≡ 0 = rw missing at (L.times-rows i) in
        rw missing (omega (arith, times-keep-le B d (is_owned user) i L.rows, never))
    | inr (x, found) ↦
        times-keep B d (is_owned user) i L.rows L.rows-AreRows found
        ∙ rw (L.times-rows i, found)
            (elim (Bool-cases (is_owned user x)) [
              | inl hers ↦ rw hers refl
              | inr other ↦ rw other refl
            ])
  ]

  -- How often the responses show an id.
  abbrev pub shown : String → List SnippetMetaResponse → ℕ
  shown i [] = 0
  shown i (r ∷ l) = (if str_eq r.id i then 1 else 0) + shown i l

  abbrev pub shows_newest_first : List SnippetMetaResponse → Bool
  shows_newest_first [] = true
  shows_newest_first (r ∷ []) = true
  shows_newest_first (r ∷ q ∷ l) = leb q.created_at r.created_at && shows_newest_first (q ∷ l)

  shown-map : (i : String) (l : List Snippet) → shown i (map (meta B d L) l) ≡ times i l
  shown-map i [] = refl
  shown-map i (x ∷ l) = ap (λ n. (if str_eq x.id i then 1 else 0) + n) (shown-map i l)

  newest-map : (l : List Snippet) → shows_newest_first (map (meta B d L) l) ≡ is_newest_first l
  newest-map [] = refl
  newest-map (x ∷ []) = refl
  newest-map (x ∷ y ∷ l) = ap (λ b. leb y.created_at x.created_at && b) (newest-map (y ∷ l))

  shown-take : (i : String) (n : ℕ) (l : List SnippetMetaResponse) → shown i (take n l) ≤ shown i l
  shown-take i zero l = omega arith
  shown-take i (suc n) [] = omega arith
  shown-take i (suc n) (r ∷ l) = omega (arith, shown-take i n l)

  shown-drop : (i : String) (n : ℕ) (l : List SnippetMetaResponse) → shown i (drop n l) ≤ shown i l
  shown-drop i zero l = omega arith
  shown-drop i (suc n) [] = omega arith
  shown-drop i (suc n) (r ∷ l) = omega (arith, shown-drop i n l)

  -- Whatever is stored under which ids, and however rows of one time are ordered: no page of a user shows a
  -- snippet twice, or one that has another author or is marked deleted; and a first page that has room
  -- for the number that it gives as the total shows each live snippet of the user once, the newest first.
  pub pages_show_own :
      (page size room : ℕ)
      → (get_all_snippet B d L user (record { page = 1; size = room })).total ≤ room
      → let items = (get_all_snippet B d L user (record { page = suc page; size = size })).items in
        let first = (get_all_snippet B d L user (record { page = 1; size = room })).items in
        ((i : String) → shown i items ≤ one_if (select_owned B d i user))
        × ((i : String) → shown i first ≡ one_if (select_owned B d i user))
        × (shows_newest_first first ≡ true)
  unfolding get_all_snippet
  pages_show_own page size room fits = (own, λ i. rw all_of (once _ i), rw all_of (sorted _))
    where
      rows_of : Params → List SnippetMetaResponse
      rows_of p = map (meta B d L) (L.order_by p (keep (is_owned user) L.rows))

      once : (p : Params) (i : String) → shown i (rows_of p) ≡ one_if (select_owned B d i user)
      once p i =
          shown-map i (L.order_by p (keep (is_owned user) L.rows))
          ∙ L.times-order_by p i (keep (is_owned user) L.rows)
          ∙ times-owned i

      sorted : (p : Params) → shows_newest_first (rows_of p) ≡ true
      sorted p =
          newest-map (L.order_by p (keep (is_owned user) L.rows))
          ∙ L.order_by-is_newest_first p (keep (is_owned user) L.rows)

      own :
          (i : String)
          → shown i
              (L.paginate
                (record { page = suc page; size = size })
                (rows_of (record { page = suc page; size = size }))).items
            ≤ one_if (select_owned B d i user)
      own i =
          let p : Params = record { page = suc page; size = size } in
          rw (L.items-paginate page size (rows_of p)) (
            omega (
              arith,
              shown-take i size (drop (page * size) (rows_of p)),
              shown-drop i (page * size) (rows_of p),
              once p i,
            ))

      all_of :
          (L.paginate
            (record { page = 1; size = room })
            (rows_of (record { page = 1; size = room }))).items
          ≡ rows_of (record { page = 1; size = room })
      all_of =
          let p : Params = record { page = 1; size = room } in
          let start : 0 * room ≡ 0 = omega arith in
          rw (L.items-paginate 0 room (rows_of p), start)
            (take-all room (rows_of p) (rw (L.total-paginate p (rows_of p)) at fits))
