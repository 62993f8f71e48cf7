-- ===== src/Middleware/Tests.antt =====
-- The middlewares on one request.
use swiftpaste.Prelude.{◌≡◌, refl, none, some, [], ◌∷◌}
use swiftpaste.Middleware.{
  HttpRequest, Outcome, responds, logging_dispatch, RequestMetrics, response_start, response_body,
  Run, metrics_call,
}
use swiftpaste.Middleware.Uncounted.{body_bytes, call_counts_no_request}

abbrev request : HttpRequest
request = record {
  method = "GET";
  path = "/";
  header_id = some "";
  content_length = some "12";
  state_id = none;
}

-- An application that echoes the id of the request's state.
abbrev echo : HttpRequest → Outcome
echo q = responds (record { status = 200; header_id = q.state_id })

-- The header is empty, so that the id is a fresh one.
echoed :
    (logging_dispatch "u-1" echo request).0
    ≡ responds (record { status = 200; header_id = some "u-1" })
unfolding logging_dispatch
echoed = refl

abbrev metrics : RequestMetrics
metrics = record {
  request_count = [];
  request_errors = [];
  request_latency = [];
  request_size = [];
  response_size = 7 ∷ [];
}

abbrev run : Run
run = record {
  messages =
      response_start 200
      ∷ response_body (some 3)
      ∷ response_body none
      ∷ response_body (some 4)
      ∷ [];
  exception = none;
}

call_counts_no_request_example :
    metrics_call "http" run metrics
    ≡ ((run.messages, run.exception), record metrics { response_size = 7 ∷ 7 ∷ [] })
unfolding body_bytes
call_counts_no_request_example = call_counts_no_request "http" run metrics
