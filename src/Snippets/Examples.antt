-- ===== src/Snippets/Examples.antt =====
-- The documents of a database in memory, from an empty one on.
use swiftpaste.Prelude.{ℕ, String, ◌≡◌, true, Option, none, some, List, [], ◌∷◌, arith}
use swiftpaste.Core.Config.{defaults}
use swiftpaste.Jobs.Model.{memory}
use swiftpaste.Models.{public, User, UpdateData, SnippetOut, SnippetCreate}
use swiftpaste.Snippets.Common.{World}
use swiftpaste.Snippets.Create.{Draw, create_snippet, insert_rows, created_response}
use swiftpaste.Snippets.Update.{update_snippet}
use swiftpaste.Snippets.Delete.{delete_snippet, snippet_out_url}
use swiftpaste.Snippets.View.{get_snippet_cached}
use swiftpaste.Snippets.Model.{Tables, in_memory}
use swiftpaste.Snippets.Consistent.{IsConsistent}
use swiftpaste.Snippets.Steps.{operations_keep_consistency}
use swiftpaste.Snippets.Documents.{Document, document_of, Edit, update, delete, share, replay}
use swiftpaste.Snippets.Edits.{run}
use swiftpaste.Snippets.Replays.{run_refines}

abbrev empty_tables : Tables
empty_tables = record { ids = λ i. none; short_ids = λ k. none; versions = λ i n. none }

empty-IsConsistent : IsConsistent in_memory empty_tables
empty-IsConsistent = record {
  short_ids = λ k. tt;
  ids = λ i. tt;
  numbers = λ i n. ground arith;
  keys = λ i n. tt;
}

abbrev empty_world : World in_memory memory
empty_world = record {
  db = empty_tables;
  cache = λ k. none;
  expiry = λ k. none;
  jobs = record { lists = λ k. []; zset = [] };
  metrics = record { cache_hit = 0; cache_miss = 0; cache_error = 0; version_creations = 0 };
}

abbrev ann : User
ann = record { id = "ann" }

abbrev payload : SnippetCreate
payload = record { title = "t"; content = "c"; visibility = public }

abbrev draw : Draw
draw = record { id = "i1"; short_id = "aaaaaaaa" }

-- One snippet has been created.
abbrev pub world : World in_memory memory
world = (create_snippet in_memory memory defaults "u" 5 draw draw payload ann empty_world).1

pub world-IsConsistent : IsConsistent in_memory world.db
world-IsConsistent =
    (operations_keep_consistency in_memory memory defaults empty_world empty-IsConsistent).0 "u" 5
      draw draw payload ann

operations_keep_consistency_example :
    ((uuid : String) (now : ℕ) (first second : Draw) (p : SnippetCreate) (user : User)
      → IsConsistent in_memory
          (create_snippet in_memory memory defaults uuid now first second p user world).1.db)
    × ((i : String) (data_ : UpdateData) (user : User)
        → IsConsistent in_memory (update_snippet in_memory memory defaults i data_ user world).1.db)
    × ((uuid : String) (now : ℕ) (i : String) (user : User)
        → IsConsistent in_memory
            (delete_snippet in_memory memory defaults uuid now i user world).1.db)
    × ((now : ℕ) (i : String) (version : Option ℕ) (p : SnippetOut) (user : User)
        → IsConsistent in_memory
            (snippet_out_url in_memory memory defaults now i version p user world).1.db)
    × ((short_id : String) (version : Option ℕ) (user : Option User) (now : ℕ)
        → IsConsistent in_memory
            (get_snippet_cached in_memory memory defaults short_id version user now world).1.db)
operations_keep_consistency_example =
    operations_keep_consistency in_memory memory defaults world world-IsConsistent

abbrev edits : List Edit
edits =
    update "i1" (some "t2") (some "c2") ann
    ∷ share "i1" (some 1) (record { ttl_seconds = some 60 }) ann 9
    ∷ delete "i1" (record { id = "bob" }) "v" 12
    ∷ []

-- The document after the three calls: bob's delete is refused.
abbrev edited : Document
edited = record {
  author_id = "ann";
  title = "t2";
  live = true;
  history =
      record {
        snippet_id = "i1";
        version = 2;
        content = some "c2";
        visibility = public;
        expires_at = none;
      }
      ∷ record {
        snippet_id = "i1";
        version = 1;
        content = some "c";
        visibility = public;
        expires_at = some 60009;
      }
      ∷ [];
}

run_refines_example :
    document_of in_memory (run in_memory memory defaults edits world).db "i1" ≡ some edited
unfolding create_snippet insert_rows created_response replay
run_refines_example = run_refines in_memory memory defaults edits world world-IsConsistent "i1"
