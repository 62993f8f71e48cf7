-- ===== src/Tasks/Tests.antt =====
-- A snippet that is created, searched for and deleted, with a worker that has a backlog.
use swiftpaste.Prelude.{
  arith, inl, ℕ, String, ◌≡◌, refl, true, false, ◌&&◌, Option, none, some, [], ◌∷◌, str_eq, ◌==◌,
  if◌then◌else◌,
}
use swiftpaste.Prelude.Int.{pos}
use swiftpaste.Core.Config.{defaults}
use swiftpaste.Core.Errors.{Result, ok, err, app}
use swiftpaste.Models.{public, Snippet, SnippetVersion, User, SnippetCreate, SnippetResponse}
use swiftpaste.Jobs.Store.{no_fields}
use swiftpaste.Jobs.Model.{json, junk, Memory, memory}
use swiftpaste.Jobs.Queue.{new_job}
use swiftpaste.Jobs.Retry.{HasDistinctLists}
use swiftpaste.Snippets.Common.{World, with_content, snippet_not_found, cache_key}
use swiftpaste.Snippets.View.{get_snippet_cached, redis_get_with_retry}
use swiftpaste.Snippets.Create.{
  Draw, new_snippet, first_version, create_snippet, insert_rows, created_response,
}
use swiftpaste.Snippets.Delete.{delete_snippet}
use swiftpaste.Snippets.Model.{in_memory}
use swiftpaste.Search.{has, index_key}
use swiftpaste.Search.{tokenize, distinct}
use swiftpaste.Search.Results.{Finder, Texts, search_snippets}
use swiftpaste.Search.Finds.{Finds}
use swiftpaste.Search.Model.{pages, finder_with, index, scan_iter_lem}
use swiftpaste.Expiry.Model.{redis as expiries}
use swiftpaste.Views.Model.{redis as counters}
use swiftpaste.Tasks.{TaskWorld, Surroundings}
use swiftpaste.Tasks.Found.{created_is_found}
use swiftpaste.Tasks.Created.{work, created_is_indexed}
use swiftpaste.Tasks.Deleted.{SharedRedis, as_read, deleted_goes_dark}

lists : HasDistinctLists defaults
lists = record {
  queue-processing = refl;
  processing-queue = refl;
  queue-failed = refl;
  failed-queue = refl;
  processing-failed = refl;
  failed-processing = refl;
}

abbrev around : Surroundings
around = record {
  uuid4 = λ n. "u";
  clock = λ n. 9000;
  late = λ n. [];
  findall = λ text. text ∷ "word" ∷ [];
  parse_uuid = λ s. none;
}

shared : SharedRedis index in_memory
shared = record {
  cache_of = λ s k. if has k s.names then s.strings k else none;
  nothing_cached = λ s k e. e;
  scan_finds = scan_iter_lem;
}

-- A flush and a text that does not parse wait in the queue.
abbrev backlog : Memory
backlog = record {
  lists = λ k.
      if str_eq k "jobs"
      then json (new_job memory "f" 1000 "flush_views_to_db" no_fields (pos 3)) ∷ junk "{" ∷ []
      else [];
  zset = [];
}

abbrev ann : User
ann = record { id = "ann" }

abbrev row : Snippet
row = record {
  id = "i1";
  short_id = "aaaaaaaa";
  title = "t";
  author_id = "ann";
  created_at = 5;
  version_counter = 1;
  views = 0;
  deleted_at = none;
}

abbrev version : SnippetVersion
version = record {
  snippet_id = "i1";
  version = 1;
  content = some "c";
  visibility = public;
  expires_at = none;
}

abbrev busy : World in_memory memory
busy = record {
  db = record {
    ids = λ i. if str_eq i "i1" then some row else none;
    short_ids = λ k. if str_eq k "aaaaaaaa" then some row else none;
    versions = λ i n. if str_eq i "i1" && n == 1 then some version else none;
  };
  cache = λ k. none;
  expiry = λ k. none;
  jobs = backlog;
  metrics = record { cache_hit = 0; cache_miss = 0; cache_error = 0; version_creations = 0 };
}

abbrev task_world : TaskWorld index expiries counters in_memory
task_world = record {
  index = record { universe = []; sets = λ k m. false; names = []; strings = λ k. none };
  expiries = record { keys = []; scores = λ k. none; strings = λ k. none };
  views = record { names = []; counters = λ k. none };
  db = busy.db;
  runs = 0;
}

abbrev bob : User
bob = record { id = "bob" }

abbrev payload : SnippetCreate
payload = record { title = "t"; content = "c"; visibility = public }

abbrev draw : Draw
draw = record { id = "i2"; short_id = "bbbbbbbb" }

abbrev created : Result SnippetResponse × World in_memory memory
created = create_snippet in_memory memory defaults "u" 5 draw draw payload bob busy

created_is_indexed_example :
    index.is_member
      (work memory defaults lists index expiries counters in_memory around 3
        (created.1.jobs, task_world)).1.index
      "search:index:word"
      "bbbbbbbb"
    ≡ true
unfolding create_snippet insert_rows created_response
created_is_indexed_example =
    created_is_indexed memory defaults lists index expiries counters in_memory around "u" 5 draw
      draw payload bob busy task_world "word" refl refl

abbrev deletion : World in_memory memory
deletion = (delete_snippet in_memory memory defaults "u" 7 "i1" ann busy).1

abbrev shown_response : SnippetResponse
shown_response =
    with_content row version (record { id = "ann"; email = "a@b.c"; username = "ann" }) "c"

-- The snippet is in the set of a word, and its shown_response is cached.
abbrev shown : TaskWorld index expiries counters in_memory
shown = record task_world {
  db = deletion.db;
  index = record {
    universe = "aaaaaaaa" ∷ [];
    sets = λ k m. true;
    names = "snippet:aaaaaaaa:vlatest" ∷ [];
    strings = λ k. some shown_response;
  };
}

abbrev worked : TaskWorld index expiries counters in_memory
worked =
    (work memory defaults lists index expiries counters in_memory around 3 (deletion.jobs, shown)).1

-- Before the worker has run, the deleted snippet is still read from the cache.
still_cached :
    (get_snippet_cached in_memory memory defaults "aaaaaaaa" none none 8 (
      as_read memory defaults lists index expiries counters in_memory around shared deletion
        shown)).0
    ≡ ok shown_response
unfolding get_snippet_cached cache_key redis_get_with_retry shared
still_cached = refl

deleted_goes_dark_example :
    ((version : Option ℕ) (caller : Option User) (t : ℕ)
      → (get_snippet_cached in_memory memory defaults "aaaaaaaa" version caller t (
          as_read memory defaults lists index expiries counters in_memory around shared deletion
            worked)).0
        ≡ err (app (snippet_not_found "Snippet or requested version not found")))
    × ((t : String)
        → (has t (around.findall "t c") && index.is_member worked.index (index_key t) "aaaaaaaa")
          ≡ false)
deleted_goes_dark_example =
    deleted_goes_dark memory defaults lists index expiries counters in_memory around shared "u" 7
      ann busy row shown refl refl refl

abbrev new_row : Snippet
new_row = new_snippet payload bob 5 draw

abbrev finder : Finder index in_memory
finder = finder_with (λ d query. (new_row, first_version payload new_row) ∷ [])

abbrev texts : Texts
texts = record { is_blank = λ t. str_eq t ""; lower = λ t. t; findall = λ t. t ∷ [] }

abbrev found_in : TaskWorld index expiries counters in_memory
found_in =
    (work memory defaults lists index expiries counters in_memory around 3
      (created.1.jobs, task_world)).1

-- Anybody who searches for the word sees the new snippet.
created_is_found_example :
    Finds counters index in_memory pages finder texts new_row
      (first_version payload new_row)
      (search_snippets counters index in_memory pages finder texts "word" none
        (record { page = 1; size = 50 })
        found_in.db
        found_in.index
        (λ k. none, task_world.views)).0
unfolding create_snippet insert_rows created_response tokenize distinct
created_is_found_example =
    created_is_found memory defaults lists index expiries counters in_memory around pages finder
      texts "u" 5 draw draw payload bob busy task_world "word" none (record { page = 1; size = 50 })
      (λ k. none) task_world.views new_row (first_version payload new_row) refl
      (λ t there. ground (arith, there)) refl (λ e. cc e) refl refl (("c", refl), tt)
      (inl (refl, refl)) refl
