-- ===== src/Snippets/Listing.antt =====
-- `get_all_snippet`, which lists the snippets of a user in pages.
use mathlib.Core.List.{map}
use swiftpaste.Prelude.{
  ℕ, zero, suc, ◌+◌, ◌*◌, String, ◌≡◌, Bool, true, some, ◌&&◌, List, [], ◌∷◌, leb, str_eq,
  if◌then◌else◌,
}
use swiftpaste.Prelude.Lists.{length, one_if}
use swiftpaste.Models.{Snippet, User, UserMeta}
use swiftpaste.Snippets.Backend.{Backend}
use swiftpaste.Snippets.Common.{is_live}

-- `latest_version` is filled from the column `version_counter`.
pub record SnippetMetaResponse : Type 0 where
  pub id : String
  pub short_id : String
  pub title : String
  pub author : UserMeta
  pub latest_version : ℕ
  pub created_at : ℕ

pub record Params : Type 0 where
  pub page : ℕ
  pub size : ℕ

pub record Page (A : Type 0) : Type 0 where
  pub items : List A
  pub total : ℕ

module _ {A : Type 0} where
  abbrev pub take : ℕ → List A → List A
  take zero l = []
  take (suc n) [] = []
  take (suc n) (a ∷ l) = a ∷ take n l

  abbrev pub drop : ℕ → List A → List A
  drop zero l = l
  drop (suc n) [] = []
  drop (suc n) (a ∷ l) = drop n l

-- How often a list of rows has an id.
abbrev pub times : String → List Snippet → ℕ
times i [] = 0
times i (x ∷ l) = (if str_eq x.id i then 1 else 0) + times i l

-- Each row is at least as old as the one before it.
abbrev pub is_newest_first : List Snippet → Bool
is_newest_first [] = true
is_newest_first (x ∷ []) = true
is_newest_first (x ∷ y ∷ l) = leb y.created_at x.created_at && is_newest_first (y ∷ l)

-- `where`: the rows that pass a test, in their order.
abbrev pub keep : (Snippet → Bool) → List Snippet → List Snippet
keep p [] = []
keep p (x ∷ l) = if p x then x ∷ keep p l else keep p l

-- `Snippet.author_id == user.id`, under the filter of the soft delete.
abbrev pub is_owned : User → Snippet → Bool
is_owned user x = is_live x && str_eq x.author_id user.id

-- Each is a row of the database under its id.
abbrev pub AreRows : (B : Backend) → B.Db → List Snippet → Type 0
AreRows B d [] = Unit
AreRows B d (x ∷ l) = (B.by_id d x.id ≡ some x) × AreRows B d l

-- What PostgreSQL has and does when it holds `d`: the rows of the table, each once; ORDER BY created_at DESC,
-- which puts rows of one time in an order of its own at each query; and `paginate` of fastapi_pagination,
-- which asks for rows with LIMIT and OFFSET, and for their number.
pub record Listing (B : Backend) (d : B.Db) : Type 1 where
  pub rows : List Snippet
  pub rows-AreRows : AreRows B d rows
  pub times-rows : (i : String) → times i rows ≡ one_if (B.by_id d i)
  pub order_by : Params → List Snippet → List Snippet
  pub times-order_by :
      (p : Params) (i : String) (l : List Snippet) → times i (order_by p l) ≡ times i l
  pub order_by-is_newest_first :
      (p : Params) (l : List Snippet) → is_newest_first (order_by p l) ≡ true
  pub paginate : {A : Type 0} → Params → List A → Page A
  pub items-paginate :
      {A : Type 0} (page size : ℕ) (l : List A)
      → (paginate (record { page = suc page; size = size }) l).items
        ≡ take size (drop (page * size) l)
  pub total-paginate : {A : Type 0} (p : Params) (l : List A) → (paginate p l).total ≡ length l

module _ (B : Backend) (d : B.Db) (L : Listing B d) where
  abbrev pub meta : Snippet → SnippetMetaResponse
  meta x = record {
    id = x.id;
    short_id = x.short_id;
    title = x.title;
    author = B.author d x.author_id;
    latest_version = x.version_counter;
    created_at = x.created_at;
  }

  unfoldable pub get_all_snippet : User → Params → Page SnippetMetaResponse
  get_all_snippet user params =
      L.paginate params (map meta (L.order_by params (keep (is_owned user) L.rows)))
