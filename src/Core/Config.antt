-- ===== src/Core/Config.antt =====
-- The settings of app/core/config.py that the code reads. Their values come from the environment.
use swiftpaste.Prelude.{ℕ, String}

pub record Settings : Type 0 where
  pub frontend_base_url : String
  pub default_share_ttl_seconds : ℕ
  pub cache_ttl_seconds : ℕ
  -- PROMETHEUS_DB_SLOWQUERY_THRESHOLD and HEALTH_CHECK_TIMEOUT, in milliseconds
  pub slow_query_threshold : ℕ
  pub health_check_timeout : ℕ
  pub capacity : ℕ
  pub refill_rate : ℕ
  pub cleanup_expired_delay_seconds : ℕ
  pub recover_stuck_jobs_delay_seconds : ℕ
  pub flush_views_interval_seconds : ℕ
  pub queue : String
  pub processing : String
  pub failed : String

-- The values that the class declares.
abbrev pub defaults : Settings
defaults = record {
  frontend_base_url = "http://localhost:8000";
  default_share_ttl_seconds = 86400;
  cache_ttl_seconds = 900;
  slow_query_threshold = 200;
  health_check_timeout = 5000;
  capacity = 10;
  refill_rate = 1;
  cleanup_expired_delay_seconds = 60;
  recover_stuck_jobs_delay_seconds = 300;
  flush_views_interval_seconds = 60;
  queue = "jobs";
  processing = "processing";
  failed = "failed";
}
