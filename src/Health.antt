-- ===== src/Health.antt =====
-- app/services/health_service.py and app/api/v1/routes/health.py: the probes, on what the database and
-- Redis answer and when.
pub mod Probes
mod Tests
use swiftpaste.Prelude.{
  ℕ, String, str_eq, Bool, true, false, ◌&&◌, Option, none, some, leb, if◌then◌else◌,
}
use swiftpaste.Core.Config.{Settings}
use swiftpaste.Core.Errors.{Details, report, AppError, Result, ok, err, app}

-- A call that is awaited: after some milliseconds it returns, or raises; or it hangs.
pub data Call {ℓ} (A : Type ℓ) : Type ℓ where
  returns : ℕ → A → Call A
  raises : ℕ → Call A
  hangs : Call A

-- `asyncio.wait_for`: a call that is not done in time is cancelled, and TimeoutError raised.
abbrev pub wait_for {ℓ} : {A : Type ℓ} → ℕ → Call A → Call A
wait_for timeout (returns t a) = if leb t timeout then returns t a else raises timeout
wait_for timeout (raises t) = if leb t timeout then raises t else raises timeout
wait_for timeout hangs = raises timeout

-- `try: return await call` with a value for any exception.
abbrev pub or_else {ℓ} : {A : Type ℓ} → A → Call A → Call A
or_else default (returns t a) = returns t a
or_else default (raises t) = returns t default
or_else default hangs = hangs

-- `SELECT 1`
unfoldable pub check_database : Call (Unit {0}) → Call Bool
check_database query = or_else false (then_true (wait_for 5000 query))
  where
    then_true : Call (Unit {0}) → Call Bool
    then_true (returns t _) = returns t true
    then_true (raises t) = raises t
    then_true hangs = hangs

-- `PING`, whose reply is returned.
unfoldable pub check_redis : Call Bool → Call Bool
check_redis ping = or_else false ping

-- A check within its time; any exception is taken for unhealthy.
abbrev pub healthy_within : ℕ → Call Bool → Bool
healthy_within timeout check = settled (wait_for timeout check)
  where
    settled : Call Bool → Bool
    settled (returns t healthy) = healthy
    settled (raises t) = false
    settled hangs = false

pub record HealthReport : Type 0 where
  pub status : String
  pub database : String
  pub redis : String
  pub request_id : Option String

abbrev pub connection : Bool → String
connection healthy = if healthy then "connected" else "disconnected"

unfoldable pub perform_health_checks :
    Settings → Call (Unit {0}) → Call Bool → Option String → HealthReport
unfolding check_database check_redis
perform_health_checks settings query ping request_id =
    let db_healthy = healthy_within settings.health_check_timeout (check_database query) in
    let redis_healthy = healthy_within 100 (check_redis ping) in
    record {
      status = if db_healthy && redis_healthy then "healthy" else "unhealthy";
      database = connection db_healthy;
      redis = connection redis_healthy;
      request_id = request_id;
    }

abbrev pub health_check_failure : HealthReport → AppError
health_check_failure r = record {
  code = "HEALTH_CHECK_FAILURE";
  message = "One or more services are down";
  status_code = 503;
  details = some (report r.status r.database r.redis r.request_id);
}

-- What `health_check` answers to a report.
abbrev pub verdict : HealthReport → Result HealthReport
verdict response =
    if str_eq response.status "unhealthy"
    then err (app (health_check_failure response))
    else ok response

-- `GET /`
unfoldable pub health_check :
    Settings → Call (Unit {0}) → Call Bool → Option String → Result HealthReport
health_check settings query ping request_id =
    verdict (perform_health_checks settings query ping request_id)

-- What `ready` answers to a report: the status and the body.
abbrev pub readiness : HealthReport → ℕ × HealthReport
readiness response =
    if str_eq response.status "unhealthy"
    then (503, record response { status = "unready" })
    else (200, record response { status = "ready" })

-- `GET /ready`
unfoldable pub ready : Settings → Call (Unit {0}) → Call Bool → Option String → ℕ × HealthReport
ready settings query ping request_id =
    readiness (perform_health_checks settings query ping request_id)
