-- ===== src/Options/Tests.antt =====
-- The checks of the options at their defaults.
use easy_uds.Prelude.{◌≡◌, ◌↔◌, refl, ok}
use easy_uds.Options.{
  default_server_options, validate_server_options, default_client_options, validate_client_options,
}
use easy_uds.Options.Laws.{
  IsValid, validate_server_options_iff, IsValidClient, validate_client_options_iff,
}

validate_server_options_run : validate_server_options default_server_options ≡ ok tt
unfolding validate_server_options
validate_server_options_run = refl

validate_server_options_iff_example :
    (validate_server_options default_server_options ≡ ok tt) ↔ IsValid default_server_options
validate_server_options_iff_example = validate_server_options_iff default_server_options

validate_client_options_iff_example :
    (validate_client_options default_client_options ≡ ok tt) ↔ IsValidClient default_client_options
validate_client_options_iff_example = validate_client_options_iff default_client_options
