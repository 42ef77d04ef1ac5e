-- ===== src/Retry/Tests.antt =====
-- Retry policies at concrete inputs.
use service_forge.Prelude.{◌≡◌, refl, [], ◌∷◌}
use service_forge.Prelude.Text.{trim_space, to_upper}
use service_forge.Prelude.Int.{pos}
use service_forge.Retry.{RetryConfig, codes_list, build_retry_policy}

abbrev config : RetryConfig
config = record {
  max_attempts = pos 3;
  per_try_timeout = pos 0;
  backoff = pos 5;
  retry_on = " not_found " ∷ "" ∷ [];
}

config_codes : codes_list config.retry_on ≡ "NOT_FOUND" ∷ []
unfolding build_retry_policy trim_space to_upper
config_codes = refl
