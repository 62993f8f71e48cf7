-- ===== src/Search/Tests.antt =====
-- The index at concrete sets.
use swiftpaste.Prelude.{
  String, ◌≡◌, refl, Bool, true, not, ◌&&◌, ◌||◌, Option, none, some, List, [], ◌∷◌, str_eq,
  if◌then◌else◌,
}
use swiftpaste.Prelude.Text.{contains}
use swiftpaste.Jobs.Store.{snippet_fields}
use swiftpaste.Search.{IndexStore, index_key, index_snippet, remove_index}
use swiftpaste.Search.Index.{is_member-remove_index-index_snippet}

record Redis : Type 0 where
  sets : String → String → Bool
  strings : String → Option String
  keys : List String

abbrev matching : String → List String → List String
matching prefix [] = []
matching prefix (k ∷ ks) =
    let rest = matching prefix ks in if contains k prefix then k ∷ rest else rest

abbrev redis : IndexStore
redis = record {
  Store = Redis;
  Payload = String;
  is_member = λ s k m. s.sets k m;
  cached = λ s k. s.strings k;
  sadd = λ key member s. record s { sets = λ k m. (str_eq key k && str_eq member m) || s.sets k m };
  srem = λ key member s. record s {
    sets = λ k m. not (str_eq key k && str_eq member m) && s.sets k m;
  };
  scan_iter = λ s prefix. matching prefix s.keys;
  delete = λ key s. record s { strings = λ k. if str_eq key k then none else s.strings k };
  is_member-sadd = λ key member s k m. refl;
  is_member-srem = λ key member s k m. refl;
  is_member-delete = λ key s k m. refl;
  cached-sadd = λ key member s k. refl;
  cached-srem = λ key member s k. refl;
  cached-delete = λ key s k. refl;
}

abbrev words : String → List String
words text = text ∷ "a" ∷ text ∷ []

abbrev filled : Redis
filled = record {
  sets = λ k m. str_eq k "search:index:a" && str_eq m "bbbbbbbb";
  strings = λ k. if str_eq k "snippet:aaaaaaaa:v1" then some "one" else some "two";
  keys = "snippet:aaaaaaaa:v1" ∷ "snippet:bbbbbbbb:v1" ∷ [];
}

is_member-remove_index-index_snippet_example :
    let (_, s₁) = index_snippet redis words (snippet_fields "i1" "aaaaaaaa" "old") filled in
    let (_, s₂) = remove_index redis words (snippet_fields "i1" "aaaaaaaa" "new") s₁ in
    s₂.sets (index_key "old") "aaaaaaaa" ≡ true
is_member-remove_index-index_snippet_example =
    is_member-remove_index-index_snippet redis words "i1" "aaaaaaaa" "old" "new" filled "old"
      "aaaaaaaa"
