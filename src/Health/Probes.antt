-- ===== src/Health/Probes.antt =====
-- What the probes answer.
use swiftpaste.Prelude.{
  ℕ, String, ◌≡◌, refl, ◌∙◌, ap, Bool, true, false, ◌&&◌, Option, some, leb, if◌then◌else◌, arith,
}
use swiftpaste.Core.Config.{Settings}
use swiftpaste.Core.Errors.{report, ErrorResponse}
use swiftpaste.Routes.{success, failure, respond}
use swiftpaste.Health.{
  Call, returns, raises, hangs, healthy_within, HealthReport, connection, check_database,
  check_redis, perform_health_checks, verdict, health_check, readiness, ready,
}

-- The database has answered a query within 5 seconds and within the setting.
unfoldable pub database_is_up : Settings → Call (Unit {0}) → Bool
database_is_up settings (returns t _) = leb t 5000 && leb t settings.health_check_timeout
database_is_up settings (raises _) = false
database_is_up settings hangs = false

-- Redis has replied PONG within a tenth of a second.
unfoldable pub redis_is_up : Call Bool → Bool
redis_is_up (returns t pong) = pong && leb t 100
redis_is_up (raises _) = false
redis_is_up hangs = false

abbrev pub body : Bool → Bool → Option String → HealthReport
body up up' request_id = record {
  status = if up && up' then "healthy" else "unhealthy";
  database = connection up;
  redis = connection up';
  request_id = request_id;
}

database_checked :
    (settings : Settings) (query : Call (Unit {0}))
    → healthy_within settings.health_check_timeout (check_database query)
      ≡ database_is_up settings query
unfolding database_is_up check_database
database_checked settings (returns t _) = ground arith
database_checked settings (raises t) = ground arith
database_checked settings hangs = ground arith

redis_checked : (ping : Call Bool) → healthy_within 100 (check_redis ping) ≡ redis_is_up ping
unfolding redis_is_up check_redis
redis_checked (returns t pong) = ground arith
redis_checked (raises t) = ground arith
redis_checked hangs = refl

perform_health_checks-body :
    (settings : Settings) (query : Call (Unit {0})) (ping : Call Bool) (request_id : Option String)
    → perform_health_checks settings query ping request_id
      ≡ body (database_is_up settings query) (redis_is_up ping) request_id
unfolding perform_health_checks
perform_health_checks-body settings query ping request_id =
    rw (database_checked settings query, redis_checked ping) refl

abbrev pub failed_probe : Bool → Bool → Option String → ErrorResponse
failed_probe up up' request_id = record {
  status = 503;
  code = "HEALTH_CHECK_FAILURE";
  message = "One or more services are down";
  details = some (report "unhealthy" (connection up) (connection up') request_id);
  request_id = request_id;
}

abbrev pub ready_answer : Bool → Bool → Option String → ℕ × HealthReport
ready_answer up up' request_id = (
  if up && up' then 200 else 503,
  record (body up up' request_id) { status = if up && up' then "ready" else "unready" },
)

verdict-body :
    (up up' : Bool) (request_id : Option String)
    → respond request_id 200 (verdict (body up up' request_id)) ≡ (
        if up && up'
        then success 200 (body true true request_id)
        else failure (failed_probe up up' request_id))
verdict-body true true request_id = refl
verdict-body true false request_id = refl
verdict-body false true request_id = refl
verdict-body false false request_id = refl

readiness-body :
    (up up' : Bool) (request_id : Option String)
    → readiness (body up up' request_id) ≡ ready_answer up up' request_id
readiness-body true true request_id = refl
readiness-body true false request_id = refl
readiness-body false true request_id = refl
readiness-body false false request_id = refl

-- Both probes succeed exactly where the database has answered in 5 seconds and in the set timeout, and Redis
-- has replied to the ping in a tenth of a second; otherwise, whether a call is late, raises or hangs, both
-- answer 503, and the body says which of the two is down.
pub probes_answer :
    (settings : Settings) (query : Call (Unit {0})) (ping : Call Bool) (request_id : Option String)
    → let up = database_is_up settings query in
      let up' = redis_is_up ping in
      (respond request_id 200 (health_check settings query ping request_id) ≡ (
        if up && up'
        then success 200 (body true true request_id)
        else failure (failed_probe up up' request_id)))
      × (ready settings query ping request_id ≡ ready_answer up up' request_id)
unfolding health_check ready
probes_answer settings query ping request_id =
    let e = perform_health_checks-body settings query ping request_id in
    let up = database_is_up settings query in
    let up' = redis_is_up ping in
    (
      ap (λ r. respond request_id 200 (verdict r)) e ∙ verdict-body up up' request_id,
      ap readiness e ∙ readiness-body up up' request_id,
    )
