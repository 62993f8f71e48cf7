-- ===== src/Search/Examples.antt =====
-- Searches over stores in memory.
use mathlib.Core.Option
use swiftpaste.Prelude.{
  ℕ, String, ◌≡◌, refl, sym, true, Option, none, some, [], ◌∷◌, str_eq, eq_iff, if◌then◌else◌,
  arith, ◌==◌,
}
use swiftpaste.Core.Errors.{Result, ok}
use swiftpaste.Models.{private, public, Snippet, SnippetVersion, SnippetResponse, User}
use swiftpaste.Snippets.Model.{Tables, in_memory}
use swiftpaste.Snippets.Common.{with_content}
use swiftpaste.Search.{has}
use swiftpaste.Search.Model.{pages, finder_with, Index, index}
use swiftpaste.Search.Results.{Params, Page, Finder, Texts, State, search_snippets}
use swiftpaste.Search.Pages.{AllItems, items_of, is_found, search_shows}
use swiftpaste.Search.Repeats.{search_repeats_for_all}
use swiftpaste.Core.Config.{defaults}
use swiftpaste.Jobs.Model.{memory}
use swiftpaste.Prelude.Split.{lacks, lacks-Lacks}
use swiftpaste.Search.{distinct}
use swiftpaste.Search.Counts.{occurrences}
use swiftpaste.Snippets.Examples.{world, world-IsConsistent}
use swiftpaste.Views.{flush_views_to_db}
use swiftpaste.Views.Gains.{viewed}
use swiftpaste.Views.Arrivals.{IsViewKey, searched_views_arrive}
use swiftpaste.Views.Model.{Redis as Counters, redis as counters}

abbrev snippet : Snippet
snippet = record {
  id = "i1";
  short_id = "aaaaaaaa";
  title = "t";
  author_id = "ann";
  created_at = 1;
  version_counter = 2;
  views = 4;
  deleted_at = none;
}

abbrev version_of : ℕ → SnippetVersion
version_of n = record {
  snippet_id = "i1";
  version = n;
  content = some "apple pie";
  expires_at = none;
  visibility = if n == 1 then private else public;
}

abbrev finder : Finder index in_memory
finder = finder_with (λ d query. (snippet, version_of 2) ∷ (snippet, version_of 1) ∷ [])

abbrev texts : Texts
texts = record { is_blank = λ t. str_eq t ""; lower = λ t. t; findall = λ t. t ∷ [] }

-- `aaaaaaaa` is in the set of `apple`.
abbrev indexed : Index
indexed = record {
  universe = "aaaaaaaa" ∷ [];
  sets = λ k m. str_eq k "search:index:apple";
  names = [];
  strings = λ k. none;
}

abbrev tables : Tables
tables = record { ids = λ i. none; short_ids = λ k. none; versions = λ i n. none }

abbrev counted : Counters
counted = record { names = []; counters = λ k. none }

abbrev first_page : Params
first_page = record { page = 1; size = 50 }

abbrev state : State counters index in_memory pages finder texts
state = (λ k. none, counted)

abbrev run :
    Option User
    → Params
    → State counters index in_memory pages finder texts
    → Result Page × State counters index in_memory pages finder texts
run user params st =
    search_snippets counters index in_memory pages finder texts "apple" user params tables indexed
      st

abbrev ann : User
ann = record { id = "ann" }

abbrev item : ℕ → SnippetResponse
item n = with_content snippet (version_of n) (in_memory.author tables "ann") "apple pie"

search_shows_example :
    AllItems
      (is_found counters index in_memory pages finder texts "apple" none indexed)
      (items_of (run none first_page state).0)
search_shows_example =
    search_shows counters index in_memory pages finder texts "apple" none first_page tables indexed
      (λ k. none) counted refl

abbrev both : Page
both = record { items = item 2 ∷ item 1 ∷ []; total = 2; params = first_page }

answered : (run (some ann) first_page state).0 ≡ ok both
unfolding search_snippets
answered = refl

-- A caller with no user gets the private version.
search_repeats_for_all_example :
    (run none first_page (run (some ann) first_page state).1).0 ≡ ok both
search_repeats_for_all_example =
    search_repeats_for_all counters index in_memory pages finder texts "apple" (some ann) none
      first_page tables indexed (λ k. none) counted answered

-- The same search, of the tables that hold the snippet.
abbrev searched : Result Page × State counters index in_memory pages finder texts
searched =
    search_snippets counters index in_memory pages finder texts "apple" (some ann) first_page
      world.db indexed state

searched_page : searched.0 ≡ ok both
unfolding search_snippets
searched_page = refl

searched_keys : (k : String) → has k (counters.keys searched.1.1) ≡ true → IsViewKey k
unfolding search_snippets distinct lacks
searched_keys k there = (
  "aaaaaaaa",
  sym ((eq_iff "snippet:views:aaaaaaaa" k).0 (ground (arith, there))),
  lacks-Lacks 58 "aaaaaaaa" refl,
)

-- The two versions that the answer shows are two views of the snippet.
searched_views_arrive_example :
    in_memory.by_short_id
      (flush_views_to_db counters in_memory memory defaults "u" 9 []
        (world.db, searched.1.1, world.jobs)).0
      "aaaaaaaa"
    ≡ Option.map (viewed 2) (in_memory.by_short_id world.db "aaaaaaaa")
unfolding occurrences
searched_views_arrive_example =
    searched_views_arrive counters index in_memory pages finder texts memory defaults "apple"
      (some ann) first_page world.db indexed (λ k. none) counted "u" 9 [] world.jobs "aaaaaaaa"
      world-IsConsistent searched_page searched_keys
