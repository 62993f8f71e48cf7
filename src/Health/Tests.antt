-- ===== src/Health/Tests.antt =====
-- A probe of a database that answers late.
use swiftpaste.Prelude.{◌≡◌, true, some}
use swiftpaste.Core.Config.{defaults}
use swiftpaste.Core.Errors.{report}
use swiftpaste.Routes.{failure, respond}
use swiftpaste.Health.{returns, health_check, ready}
use swiftpaste.Health.Probes.{database_is_up, redis_is_up, probes_answer}

probes_answer_example :
    (respond (some "r") 200 (health_check defaults (returns 5001 tt) (returns 3 true) (some "r"))
      ≡ failure (record {
        status = 503;
        code = "HEALTH_CHECK_FAILURE";
        message = "One or more services are down";
        details = some (report "unhealthy" "disconnected" "connected" (some "r"));
        request_id = some "r";
      }))
    × (ready defaults (returns 5001 tt) (returns 3 true) (some "r") ≡ (
      503,
      record {
        status = "unready";
        database = "disconnected";
        redis = "connected";
        request_id = some "r";
      },
    ))
unfolding database_is_up redis_is_up
probes_answer_example = probes_answer defaults (returns 5001 tt) (returns 3 true) (some "r")
