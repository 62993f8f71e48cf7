-- ===== src/Middleware.antt =====
-- app/core/middleware: the id of a request and the metrics of requests. A middleware gets a request and the
-- application behind it.
pub mod RequestIds
pub mod Uncounted
mod Tests
use swiftpaste.Prelude.{
  ℕ, suc, ◌+◌, String, Bool, true, false, ◌&&◌, Option, none, some, List, [], ◌∷◌, ◌++◌, str_eq,
  if◌then◌else◌,
}

-- What the middlewares read of a request; `state_id` is `request.state.request_id`.
pub record HttpRequest : Type 0 where
  pub method : String
  pub path : String
  pub header_id : Option String
  pub content_length : Option String
  pub state_id : Option String

-- `header_id` is the header `X-Request-Id`.
pub record HttpResponse : Type 0 where
  pub status : ℕ
  pub header_id : Option String

-- A call of the application behind: a response, or an exception by its class.
pub data Outcome : Type 0 where
  responds : HttpResponse → Outcome
  throws : String → Outcome

-- `headers.get(REQUEST_ID_HEADER) or str(uuid.uuid4())`
abbrev pub id_or_fresh : Option String → String → String
id_or_fresh none fresh = fresh
id_or_fresh (some id) fresh = if str_eq id "" then fresh else id

abbrev pub with_header : String → Outcome → Outcome
with_header id (throws e) = throws e
with_header id (responds r) = responds (record r { header_id = some id })

-- `RequestIdMiddleware.dispatch`
unfoldable pub request_id_dispatch : String → (HttpRequest → Outcome) → HttpRequest → Outcome
request_id_dispatch uuid call_next request =
    let request_id = id_or_fresh request.header_id uuid in
    with_header request_id (call_next (record request { state_id = some request_id }))

-- A log line: of an exception, or of a response with its status.
pub data LogLine : Type 0 where
  unhandled_exception : String → String → String → LogLine
  request_line : String → String → String → ℕ → LogLine

-- `RequestLoggingMiddleware.dispatch`
unfoldable pub logging_dispatch :
    String → (HttpRequest → Outcome) → HttpRequest → Outcome × List LogLine
logging_dispatch uuid call_next request =
    let request_id = id_or_fresh request.header_id uuid in
    elim (call_next (record request { state_id = some request_id })) [
      | throws e ↦ (throws e, unhandled_exception request_id request.path request.method ∷ [])
      | responds r ↦ (
        responds (record r { header_id = some request_id }),
        request_line request_id request.method request.path r.status ∷ [],
      )
    ]

-- app/metrics/request_metrics.py: what each metric has been told, the latest first; a latency is known by
-- its labels.
pub record RequestMetrics : Type 0 where
  pub request_count : List (String × String × ℕ)
  pub request_errors : List (String × String)
  pub request_latency : List (String × String)
  pub request_size : List ℕ
  pub response_size : List ℕ

-- What is sent to the client: the start of a response, or a part of the body, with its number of bytes where
-- the message has one.
pub data Message : Type 0 where
  response_start : ℕ → Message
  response_body : Option ℕ → Message

-- What the application behind sends, and the exception that it ends with.
pub record Run : Type 0 where
  pub messages : List Message
  pub exception : Option String

-- `send_wrapper`: the size so far, and what has gone out.
unfoldable pub send_wrapper : Message → ℕ × List Message → ℕ × List Message
send_wrapper (response_start status) (size, sent) = (size, sent ++ (response_start status ∷ []))
send_wrapper (response_body none) (size, sent) = (size, sent ++ (response_body none ∷ []))
send_wrapper (response_body (some bytes)) (size, sent) =
    (size + bytes, sent ++ (response_body (some bytes) ∷ []))

unfoldable pub send_all : List Message → ℕ × List Message → ℕ × List Message
unfolding send_wrapper
send_all [] state = state
send_all (m ∷ ms) state = send_all ms (send_wrapper m state)

-- `MetricsMiddleware.__call__`, which the server calls: what is sent, the exception, and the metrics.
unfoldable pub metrics_call :
    String → Run → RequestMetrics → (List Message × Option String) × RequestMetrics
unfolding send_all
metrics_call scope_type run metrics =
    if str_eq scope_type "http"
    then (let (size, sent) = send_all run.messages (0, []) in
        elim run.exception [
          | some e ↦ ((sent, some e), metrics)
          | none ↦ ((sent, none), record metrics { response_size = size ∷ metrics.response_size })
        ])
    else ((run.messages, run.exception), metrics)

-- The `finally` of `MetricsMiddleware.dispatch`. `int` is Python's, on a text; `none` is its ValueError.
abbrev pub observe_size : (String → Option ℕ) → HttpRequest → Option ℕ
observe_size int request = elim request.content_length [ none ↦ some 0 | some text ↦ int text ]

-- `MetricsMiddleware.dispatch`
unfoldable pub metrics_dispatch :
    (String → Option ℕ) → Outcome → HttpRequest → RequestMetrics → Outcome × RequestMetrics
metrics_dispatch int (throws e) request m =
    let failed : RequestMetrics = record m {
      request_errors = (request.method, request.path) ∷ m.request_errors;
      request_latency = (request.method, request.path) ∷ m.request_latency;
    } in
    elim (observe_size int request) [
      | none ↦ (throws "ValueError", failed)
      | some size ↦ (throws e, record failed { request_size = size ∷ m.request_size })
    ]
metrics_dispatch int (responds r) request m =
    let timed : RequestMetrics = record m {
      request_latency = (request.method, request.path) ∷ m.request_latency;
    } in
    elim (observe_size int request) [
      | none ↦ (throws "ValueError", timed)
      | some size ↦ (
        responds r,
        record timed {
          request_size = size ∷ m.request_size;
          request_count = (request.method, request.path, r.status) ∷ m.request_count;
        },
      )
    ]
