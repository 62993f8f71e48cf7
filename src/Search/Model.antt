-- ===== src/Search/Model.antt =====
-- The sets and the cached strings of a store in memory.
use text.Mathlib.Text.{starts_with}
use text.Mathlib.TextPositions.{starts_with-append}
use swiftpaste.Prelude.{
  ℕ, some, ◌∙◌, true, sym, String, ◌≡◌, refl, ap, Bool, false, not, ◌&&◌, ◌||◌, Option, none, List,
  [], ◌∷◌, str_eq, str_append, eq_iff, if◌then◌else◌, arith, Bool-cases, inl, inr,
}
use swiftpaste.Models.{Snippet, SnippetVersion, SnippetResponse}
use swiftpaste.Snippets.Model.{Tables, in_memory}
use swiftpaste.Search.Results.{PageStore, Finder, all}
use swiftpaste.Search.{IndexStore, has}

-- The members of the sets are among those that are written down, and so are the keys of the strings.
pub record Index : Type 0 where
  pub universe : List String
  pub sets : String → String → Bool
  pub names : List String
  pub strings : String → Option SnippetResponse

abbrev pub member : Index → String → String → Bool
member s k m = has m s.universe && s.sets k m

abbrev pub string_at : Index → String → Option SnippetResponse
string_at s k = if has k s.names then s.strings k else none

abbrev pub matching : (String → Bool) → List String → List String
matching p [] = []
matching p (m ∷ ms) = let rest = matching p ms in if p m then m ∷ rest else rest

pub has-matching :
    (p : String → Bool) (ms : List String) (m : String) → has m (matching p ms) ≡ (has m ms && p m)
has-matching p [] m = refl
has-matching p (n ∷ ms) m = elim (Bool-cases (str_eq n m)) [
  | inl same ↦ ground (arith, has-matching p ms m, ap p ((eq_iff n m).0 same))
  | inr other ↦ ground (arith, has-matching p ms m)
]

abbrev pub sadd : String → String → Index → Index
sadd key m s = record s {
  universe = m ∷ s.universe;
  sets = λ k n. (str_eq key k && str_eq m n) || member s k n;
}

pub member-sadd :
    (key m : String) (s : Index) (k n : String)
    → member (sadd key m s) k n ≡ ((str_eq key k && str_eq m n) || member s k n)
member-sadd key m s k n = ground arith

abbrev pub srem : String → String → Index → Index
srem key m s = record s { sets = λ k n. not (str_eq key k && str_eq m n) && s.sets k n }

pub member-srem :
    (key m : String) (s : Index) (k n : String)
    → member (srem key m s) k n ≡ (not (str_eq key k && str_eq m n) && member s k n)
member-srem key m s k n = ground arith

pub string_at-delete :
    (key : String) (s : Index) (k : String)
    → string_at (record s { strings = λ j. if str_eq key j then none else s.strings j }) k
      ≡ (if str_eq key k then none else string_at s k)
string_at-delete key s k = ground arith

abbrev pub index : IndexStore
index = record {
  Store = Index;
  Payload = SnippetResponse;
  is_member = member;
  cached = string_at;
  sadd = sadd;
  srem = srem;
  scan_iter = λ s prefix. matching (λ k. starts_with k prefix) s.names;
  delete = λ key s. record s { strings = λ j. if str_eq key j then none else s.strings j };
  is_member-sadd = member-sadd;
  is_member-srem = member-srem;
  is_member-delete = λ key s k m. refl;
  cached-sadd = λ key m s k. refl;
  cached-srem = λ key m s k. refl;
  cached-delete = string_at-delete;
}

-- The scan lists each key that is there and begins as given.
pub scan_iter_lem :
    (s : Index) (prefix rest : String)
    → has (str_append prefix rest) (matching (λ k. starts_with k prefix) s.names) ≡ false
    → string_at s (str_append prefix rest) ≡ none
scan_iter_lem s prefix rest not_listed = ground (
  arith,
  not_listed,
  has-matching (λ k. starts_with k prefix) s.names (str_append prefix rest),
  starts_with-append prefix rest,
)

abbrev pub pages : PageStore
pages = record {
  Store = String → Option (List SnippetResponse × ℕ);
  Payload = List SnippetResponse × ℕ;
  get = λ k s. s k;
  setex = λ k ttl p s j. if str_eq k j then some p else s j;
  dumps = λ items total. (items, total);
  loads = λ p. some p;
  get-setex = λ k ttl p s j. refl;
  loads-dumps = λ items total. refl;
}

pub all-and :
    (b : Bool) (p : String → Bool) (k : String) (ks : List String)
    → all (λ j. b && p j) (k ∷ ks) ≡ (b && all p (k ∷ ks))
all-and true p k ks = refl
all-and false p k ks = refl

-- Set intersections, with rows that are given.
abbrev pub finder_with :
    (Tables → String → List (Snippet × SnippetVersion)) → Finder index in_memory
finder_with ranked = record {
  sinter = λ keys s. matching (λ m. all (λ k. s.sets k m) keys) s.universe;
  ranked = ranked;
  has-sinter = λ key keys s m.
      has-matching (λ n. all (λ k. s.sets k n) (key ∷ keys)) s.universe m
      ∙ sym (all-and (has m s.universe) (λ k. s.sets k m) key keys);
}
