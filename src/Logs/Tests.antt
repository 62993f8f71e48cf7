-- ===== src/Logs/Tests.antt =====
-- The line of a job that has failed.
use swiftpaste.Prelude.{◌≡◌, refl, none, some, [], ◌∷◌}
use swiftpaste.Logs.{str, num, LogRecord, attribute, copy_attributes, exc_fields, format}
use swiftpaste.Logs.Fields.{line_shows}

abbrev failed : LogRecord
failed = record {
  levelname = "ERROR";
  name = "app";
  message = "job_failed";
  extra = ("job_id", str "j1") ∷ ("status_code", num "500") ∷ [];
  exc_info = some ("KeyError", "Traceback");
}

line_shows_example :
    (attribute "job_id" (format "now" failed) ≡ none)
    × (attribute "ts" (format "now" failed) ≡ some (str "now"))
    × (attribute "level" (format "now" failed) ≡ some (str "ERROR"))
    × (attribute "logger" (format "now" failed) ≡ some (str "app"))
    × (attribute "msg" (format "now" failed) ≡ some (str "job_failed"))
line_shows_example = line_shows "now" failed "job_id" refl

failed_line :
    format "now" failed
    ≡ ("ts", str "now")
      ∷ ("level", str "ERROR")
      ∷ ("logger", str "app")
      ∷ ("msg", str "job_failed")
      ∷ ("status_code", num "500")
      ∷ ("exc_type", str "KeyError")
      ∷ ("exc", str "Traceback")
      ∷ []
unfolding format copy_attributes exc_fields
failed_line = refl
