-- ===== src/Logs.antt =====
-- JsonFormatter of app/core/logging.py: the dict that it makes of a log record.
pub mod Fields
mod Tests
use swiftpaste.Prelude.{
  String, Bool, Option, none, some, List, [], ◌∷◌, ◌++◌, str_eq, if◌then◌else◌,
}

-- What `json.dumps` gets for a key: a text, or a number of the record.
pub data Value : Type 0 where
  str : String → Value
  num : String → Value

-- The attributes of a LogRecord beside those that `logging` sets come from `extra`; `exc_info` is the name
-- of the exception's class and the formatted exception.
pub record LogRecord : Type 0 where
  pub levelname : String
  pub name : String
  pub message : String
  pub extra : List (String × Value)
  pub exc_info : Option (String × String)

-- `getattr(record, key)`, or none where `hasattr` is false.
abbrev pub attribute : String → List (String × Value) → Option Value
attribute k [] = none
attribute k ((j, v) ∷ l) = if str_eq j k then some v else attribute k l

-- The keys that are copied.
abbrev pub copied_keys : List String
copied_keys =
    "request_id" ∷ "method" ∷ "path" ∷ "status_code" ∷ "duration_ms" ∷ "user_id" ∷ "short_id" ∷ []

-- `for key in (...)`
unfoldable pub copy_attributes : List String → List (String × Value) → List (String × Value)
copy_attributes [] extra = []
copy_attributes (key ∷ keys) extra =
    let rest = copy_attributes keys extra in
    elim (attribute key extra) [ none ↦ rest | some v ↦ (key, v) ∷ rest ]

unfoldable pub exc_fields : Option (String × String) → List (String × Value)
exc_fields none = []
exc_fields (some (exc_type, exc)) = ("exc_type", str exc_type) ∷ ("exc", str exc) ∷ []

-- `payload`; `ts` is the time.
unfoldable pub format : String → LogRecord → List (String × Value)
unfolding copy_attributes exc_fields
format ts r =
    ("ts", str ts)
    ∷ ("level", str r.levelname)
    ∷ ("logger", str r.name)
    ∷ ("msg", str r.message)
    ∷ (copy_attributes copied_keys r.extra ++ exc_fields r.exc_info)
