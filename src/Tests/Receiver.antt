-- ===== src/Tests/Receiver.antt =====
-- The settings of the Jaeger receiver at concrete inputs.
use hypertrace_collector.Prelude.{ℕ, ◌≡◌, ◌↔◌, refl, true, none, ◌++◌, Str, str}
use hypertrace_collector.Prelude.Decimal.{itoa, read_digits}
use hypertrace_collector.Prelude.Int.{all_digits}
use hypertrace_collector.JaegerReceiver.Config.{
  Config, create_default_config, check_port_from_endpoint, validate,
}
use hypertrace_collector.JaegerReceiver.Config.Valid.{Valid, validate_receiver_iff}

abbrev endpoint_for_port : ℕ → Str
endpoint_for_port n = str "localhost:" ++ itoa n

abbrev defaults : Config ℕ ℕ
defaults = create_default_config endpoint_for_port 0 0

validate_receiver_iff_example : (validate true defaults ≡ none) ↔ Valid true defaults
validate_receiver_iff_example = validate_receiver_iff true defaults

-- The default settings are valid.
defaults_accepted : validate true defaults ≡ none
unfolding validate create_default_config str itoa all_digits read_digits
defaults_accepted = refl

-- An IPv6 host is written in brackets.
bracketed_accepted : check_port_from_endpoint (str "[::1]:14250") ≡ none
unfolding check_port_from_endpoint str all_digits read_digits
bracketed_accepted = refl
