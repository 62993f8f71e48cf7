-- ===== src/Logs/Fields.antt =====
-- Which attributes of a record reach its line in the log.
use swiftpaste.Prelude.{
  String, ◌≡◌, refl, ◌∙◌, Bool, true, false, Option, none, some, List, [], ◌∷◌, arith, ◌++◌, str_eq,
  if◌then◌else◌, Bool-cases, Option-cases, inl, inr, eq_iff,
}
use swiftpaste.Search.{has}
use swiftpaste.Logs.{
  Value, str, LogRecord, attribute, copied_keys, copy_attributes, exc_fields, format,
}

abbrev no_value : Option Value
no_value = none

attribute-append :
    (k : String) (l m : List (String × Value))
    → attribute k (l ++ m) ≡ elim (attribute k l) [ none ↦ attribute k m | some v ↦ some v ]
attribute-append k [] m = refl
attribute-append k ((j, v) ∷ l) m = ground (arith, attribute-append k l m)

attribute-copy_attributes :
    (k : String) (keys : List String) (extra : List (String × Value))
    → attribute k (copy_attributes keys extra) ≡ (if has k keys then attribute k extra else none)
unfolding copy_attributes
attribute-copy_attributes k [] extra = refl
attribute-copy_attributes k (key ∷ keys) extra = elim (Option-cases (attribute key extra)) [
  | inl missing ↦
      rw (missing, copy_attributes)
        (attribute-copy_attributes k keys extra ∙ elim (Bool-cases (str_eq key k)) [
          | inl same ↦
              let none_there : attribute k extra ≡ none = rw ((eq_iff key k).0 same) at missing in
              rw (same, none_there) (either (has k keys))
          | inr other ↦ rw other refl
        ])
  | inr (v, there) ↦
      rw (there, copy_attributes)
        (elim (Bool-cases (str_eq key k)) [
          | inl same ↦ rw (same, ← there, (eq_iff key k).0 same) refl
          | inr other ↦ rw (other) (attribute-copy_attributes k keys extra)
        ])
]
  where
    either : (b : Bool) → (if b then no_value else none) ≡ none
    either true = refl
    either false = refl

-- The keys that the formatter sets itself.
abbrev pub own_keys : List String
own_keys = "ts" ∷ "level" ∷ "logger" ∷ "msg" ∷ "exc_type" ∷ "exc" ∷ []

attribute-exc_fields :
    (k : String) (e : Option (String × String))
    → has k own_keys ≡ false
    → attribute k (exc_fields e) ≡ none
unfolding exc_fields
attribute-exc_fields k none foreign = refl
attribute-exc_fields k (some (t, e)) foreign = ground (arith, foreign)

or_none : (o p : Option Value) → p ≡ none → elim o [ none ↦ p | some v ↦ some v ] ≡ o
or_none none p e = e
or_none (some v) p e = refl

attribute-copied :
    (k : String) (keys : List String) (extra : List (String × Value)) (e : Option (String × String))
    → has k own_keys ≡ false
    → attribute k (copy_attributes keys extra ++ exc_fields e)
      ≡ (if has k keys then attribute k extra else none)
attribute-copied k keys extra e foreign =
    attribute-append k (copy_attributes keys extra) (exc_fields e)
    ∙ or_none (attribute k (copy_attributes keys extra)) (attribute k (exc_fields e))
        (attribute-exc_fields k e foreign)
    ∙ attribute-copy_attributes k keys extra

attribute-header :
    (k : String) (a b c d : Value) (rest : List (String × Value))
    → has k own_keys ≡ false
    → attribute k (("ts", a) ∷ ("level", b) ∷ ("logger", c) ∷ ("msg", d) ∷ rest) ≡ attribute k rest
attribute-header k a b c d rest foreign = ground (arith, foreign)

-- Of the attributes that a call passes in `extra`, under a key that is none of the formatter's own, those
-- of the seven keys reach the line as they are, and no other does; and the line begins with the time, the
-- level, the logger and the message.
pub line_shows :
    (ts : String) (r : LogRecord) (k : String)
    → has k own_keys ≡ false
    → (attribute k (format ts r) ≡ (if has k copied_keys then attribute k r.extra else none))
      × (attribute "ts" (format ts r) ≡ some (str ts))
      × (attribute "level" (format ts r) ≡ some (str r.levelname))
      × (attribute "logger" (format ts r) ≡ some (str r.name))
      × (attribute "msg" (format ts r) ≡ some (str r.message))
unfolding format
line_shows ts r k foreign = (
  attribute-header k (str ts) (str r.levelname) (str r.name) (str r.message)
        (copy_attributes copied_keys r.extra ++ exc_fields r.exc_info) foreign
      ∙ attribute-copied k copied_keys r.extra r.exc_info foreign,
  refl,
  refl,
  refl,
  refl,
)
