-- ===== src/Middleware/RequestIds.antt =====
-- The id of a request, in its answer and in the log.
use swiftpaste.Prelude.{
  String, ◌≡◌, ◌⊎◌, refl, false, Option, none, some, List, [], ◌∷◌, str_eq, Bool-cases, inl, inr,
}
use swiftpaste.Middleware.{
  HttpRequest, HttpResponse, Outcome, responds, throws, LogLine, unhandled_exception, request_line,
  id_or_fresh, request_id_dispatch, logging_dispatch,
}

-- An answer and its log line have one id, which is not empty; an exception is logged under it.
abbrev pub Traced : HttpRequest → Outcome → List LogLine → Type 0
Traced q (responds r) lines =
    (id : String) × (str_eq id "" ≡ false)
    × (r.header_id ≡ some id)
    × (lines ≡ request_line id q.method q.path r.status ∷ [])
Traced q (throws e) lines =
    (id : String) × (str_eq id "" ≡ false) × (lines ≡ unhandled_exception id q.path q.method ∷ [])

not_empty :
    (header : Option String) (uuid : String)
    → str_eq uuid "" ≡ false
    → str_eq (id_or_fresh header uuid) "" ≡ false
not_empty none uuid fresh = fresh
not_empty (some id) uuid fresh = elim (Bool-cases (str_eq id "")) [
  | inl empty ↦ rw empty fresh
  | inr given ↦ rw given given
]

Outcome-cases :
    (o : Outcome) → ((r : HttpResponse) × (o ≡ responds r)) ⊎ ((e : String) × (o ≡ throws e))
Outcome-cases (responds r) = inl (r, refl)
Outcome-cases (throws e) = inr (e, refl)

-- Whatever the application behind it does, the middleware that logs answers as the one that only sets the id,
-- exceptions included; with a fresh id that is not empty, the answer carries an id, also where the header is
-- empty, and one line is logged under the same id, for an exception too.
pub logging_traces :
    (uuid : String) (call_next : HttpRequest → Outcome) (q : HttpRequest)
    → str_eq uuid "" ≡ false
    → let (outcome, lines) = logging_dispatch uuid call_next q in
      (outcome ≡ request_id_dispatch uuid call_next q) × Traced q outcome lines
unfolding logging_dispatch request_id_dispatch
logging_traces uuid call_next q fresh =
    let id = id_or_fresh q.header_id uuid in
    let named = not_empty q.header_id uuid fresh in
    elim (Outcome-cases (call_next (record q { state_id = some id }))) [
      | inl (r, answered) ↦
          rw (answered, logging_dispatch, request_id_dispatch) (refl, (id, named, refl, refl))
      | inr (e, failed) ↦
          rw (failed, logging_dispatch, request_id_dispatch) (refl, (id, named, refl))
    ]
