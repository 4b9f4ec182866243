-- ===== src/Tests/OtherRuns.antt =====
-- Runs and instances for settings.go and the stat_handler_wrapper files.
use gostats.Prelude.{
  ◌-◌, ◌^◌, ◌≡◌, refl, Bool, true, false, none, some, [], arith, if◌then◌else◌, ret,
}
use gostats.Bytes.{beq, codes}
use gostats.Settings.{
  env_int, ℤ, Env, Settings, atoi, env_or, get_settings, prune_key, interval_key, positive,
  flushes_for, prune_flushes, prune_after_flushes_from_env,
}
use gostats.Settings.Rounding.{RoundsUp, prune_flushes-RoundsUp}
use gostats.Settings.Decimals.{env_int-itoa}
use gostats.Handler.Responses.{itoa}
use gostats.Settings.Agreement.{get_settings-agrees}
use gostats.Handler.{Interface, wrap_response}
use gostats.Handler.Wraps.{Embeds, wrap_response-Embeds}

abbrev typical : Env
typical k =
    if beq prune_key k
    then codes "60"
    else if beq interval_key k
    then codes "7"
    else if beq (codes "USE_STATSD") k
    then codes "f"
    else []

abbrev typical_settings : Settings
typical_settings = record {
  use_statsd = false;
  statsd_host = codes "localhost";
  statsd_protocol = codes "tcp";
  statsd_port = ℤ.pos 8125;
  flush_interval_s = ℤ.pos 7;
  logging_sink_disabled = false;
  prune_idle_seconds = ℤ.pos 60;
}

get_settings-typical : get_settings typical ≡ ret typical_settings
unfolding get_settings env_or beq
get_settings-typical = refl

atoi-negative : atoi (codes "-120") ≡ some (ℤ.negsuc 119)
unfolding atoi
atoi-negative = refl

atoi-too_big : atoi (codes "9223372036854775808") ≡ none
unfolding atoi
atoi-too_big = refl

-- A sum that overflows disables pruning, or gives some other number.
prune_flushes-overflow : prune_flushes (2 ^ 63 - 1) 2 ≡ 0
unfolding prune_flushes
prune_flushes-overflow = refl

get_settings-agrees_example :
    prune_after_flushes_from_env typical
    ≡ flushes_for (positive (ℤ.pos 60, none)) (positive (ℤ.pos 7, none))
get_settings-agrees_example = get_settings-agrees typical typical_settings get_settings-typical

prune_flushes-RoundsUp_example : RoundsUp 60 7 (prune_flushes 60 7)
prune_flushes-RoundsUp_example =
    prune_flushes-RoundsUp 60 7 (omega arith) (omega arith) (omega arith)

abbrev http1 : Interface → Bool
http1 Interface.pusher = false
http1 i = true

wrap_response-Embeds_example : Embeds http1 (wrap_response http1)
wrap_response-Embeds_example = wrap_response-Embeds http1

abbrev port_env : Env
port_env k = codes "-120"

env_int-itoa_example : env_int (codes "STATSD_PORT") (ℤ.pos 8125) port_env ≡ (ℤ.negsuc 119, none)
unfolding itoa
env_int-itoa_example =
    env_int-itoa (codes "STATSD_PORT") (ℤ.pos 8125) (ℤ.negsuc 119) port_env (omega arith) refl
