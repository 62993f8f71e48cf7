-- ===== src/Middleware/Uncounted.antt =====
-- Which metrics a request moves.
use mathlib.Core.List.{append-nil, append_assoc}
use swiftpaste.Prelude.{
  ℕ, suc, ◌+◌, String, ◌≡◌, refl, ◌∙◌, sym, Option, none, some, List, [], ◌∷◌, ◌++◌, str_eq,
  if◌then◌else◌, arith, Bool-cases, Option-cases, inl, inr,
}
use swiftpaste.Prelude.Lists.{length}
use swiftpaste.Middleware.{
  HttpRequest, Outcome, responds, throws, RequestMetrics, Message, response_start, response_body,
  Run, send_wrapper, send_all, metrics_call, observe_size, metrics_dispatch,
}

-- The bytes of a body.
unfoldable pub body_bytes : List Message → ℕ
body_bytes [] = 0
body_bytes (response_start status ∷ ms) = body_bytes ms
body_bytes (response_body none ∷ ms) = body_bytes ms
body_bytes (response_body (some bytes) ∷ ms) = bytes + body_bytes ms

send_all_lem :
    (ms : List Message) (size : ℕ) (sent : List Message)
    → (send_all ms (size, sent)).0 ≡ size + body_bytes ms
      × (send_all ms (size, sent)).1 ≡ sent ++ ms
unfolding send_all send_wrapper body_bytes
send_all_lem [] size sent = (omega arith, sym (append-nil sent))
send_all_lem (response_start status ∷ ms) size sent =
    let (bytes, out) = send_all_lem ms size (sent ++ (response_start status ∷ [])) in
    (bytes, out ∙ append_assoc sent ((response_start status) ∷ []) ms)
send_all_lem (response_body none ∷ ms) size sent =
    let (bytes, out) = send_all_lem ms size (sent ++ (response_body none ∷ [])) in
    (bytes, out ∙ append_assoc sent ((response_body none) ∷ []) ms)
send_all_lem (response_body (some n) ∷ ms) size sent =
    let (bytes, out) = send_all_lem ms (size + n) (sent ++ (response_body (some n) ∷ [])) in
    (ground (arith, bytes), out ∙ append_assoc sent ((response_body (some n)) ∷ []) ms)

-- The sizes that a run adds: that of its body, if it is of HTTP and has ended well.
abbrev pub observed : String → Run → List ℕ
observed scope_type run =
    if str_eq scope_type "http"
    then elim run.exception [ none ↦ body_bytes run.messages ∷ [] | some e ↦ [] ]
    else []

-- Whatever the application behind it does, the middleware that the server calls passes on every message, in
-- order, and the exception, and observes one size, the bytes of the body, for a run of HTTP that ends well;
-- it counts no request, no error, no latency and no size of a request.
pub call_counts_no_request :
    (scope_type : String) (run : Run) (m : RequestMetrics)
    → metrics_call scope_type run m ≡ (
      (run.messages, run.exception),
      record m { response_size = observed scope_type run ++ m.response_size },
    )
unfolding metrics_call
call_counts_no_request scope_type run m = elim (Bool-cases (str_eq scope_type "http")) [
  | inr other ↦ rw (other, metrics_call) refl
  | inl http ↦
      let (bytes, out) = send_all_lem run.messages 0 [] in
      let size : (send_all run.messages (0, [])).0 ≡ body_bytes run.messages =
        ground (arith, bytes) in
      elim (Option-cases run.exception) [
        | inl ended ↦ rw (http, metrics_call, ended, size, out) refl
        | inr (e, failed) ↦ rw (http, metrics_call, failed, out) refl
      ]
]

-- Were `dispatch` called, each request whose length is a number would be counted once, as an answer or as an
-- error, and its latency and size observed once, and it would be answered as without the metrics.
pub dispatch_counts_once :
    (int : String → Option ℕ) (outcome : Outcome) (q : HttpRequest) (m : RequestMetrics) {size : ℕ}
    → observe_size int q ≡ some size
    → let (outcome', m') = metrics_dispatch int outcome q m in
      (outcome' ≡ outcome)
      × (length m'.request_count + length m'.request_errors
          ≡ suc (length m.request_count + length m.request_errors))
      × (m'.request_latency ≡ (q.method, q.path) ∷ m.request_latency)
      × (m'.request_size ≡ size ∷ m.request_size)
unfolding metrics_dispatch
dispatch_counts_once int (throws e) q m known =
    rw (known, metrics_dispatch) (refl, omega arith, refl, refl)
dispatch_counts_once int (responds r) q m known =
    rw (known, metrics_dispatch) (refl, omega arith, refl, refl)
