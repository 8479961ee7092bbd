-- ===== src/Config/Examples.antt =====
-- The check of the default configuration.
use fac_lpr_engine.Prelude.{◌≡◌, refl, ◌↔◌}
use fac_lpr_engine.Errors.{ok}
use fac_lpr_engine.Float.{Milli, milli_float}
use fac_lpr_engine.Config.{
  EngineConfig, default_config, validate_engine_config, check_detector, check_recognition,
  check_crop, check_decision, check_performance, require_positive, require_unit_interval,
}
use fac_lpr_engine.Config.Limits.{IsChecked, validate_engine_config_iff}

abbrev config : EngineConfig Milli
config = default_config

passes : validate_engine_config config ≡ ok tt
unfolding validate_engine_config check_detector check_recognition check_crop check_decision
    check_performance require_positive require_unit_interval
passes = refl

validate_engine_config_iff_example : (validate_engine_config config ≡ ok tt) ↔ IsChecked config
validate_engine_config_iff_example = validate_engine_config_iff config
