-- ===== src/Settings/Agreement.antt =====
-- `GetSettings` of settings.go beside `pruneAfterFlushesFromEnv` of stats.go.
use gostats.Prelude.{◌≡◌, ◌∙◌, ap, ap₂, bind_ret, true, false, Option, none, some, Run, ret, panic}
use gostats.Bytes.{codes}
use gostats.Settings.{
  ℤ, Env, EnvError, Settings, env_int, env_bool, get_settings, must, prune_key, interval_key,
  default_flush_interval_s, positive, flushes_for, prune_after_flushes_from_env,
}

must_ret : {A : Type 0} (x : A × Option EnvError) (a : A) → must x ≡ ret a → x ≡ (a, none)
must_ret {A} (b, none) a e = ap (λ (r : Run A). (elim r [ ret c ↦ c | panic ↦ b ], none)) e
must_ret (b, some err) a e = absurd (cc)

-- Where `GetSettings` does not panic, `NewStore` prunes after the number of flushes that belongs to the
-- settings' seconds and interval.
pub get_settings-agrees :
    (env : Env) (settings : Settings)
    → get_settings env ≡ ret settings
    → prune_after_flushes_from_env env
      ≡ flushes_for
          (positive (settings.prune_idle_seconds, none))
          (positive (settings.flush_interval_s, none))
unfolding get_settings prune_after_flushes_from_env
get_settings-agrees env settings e =
    let (b1, e1, r1) = bind_ret (must (env_bool (codes "USE_STATSD") true env)) _ settings e in
    let (b2, e2, r2) =
      bind_ret (must (env_int (codes "STATSD_PORT") (ℤ.pos 8125) env)) _ settings r1 in
    let (interval, e3, r3) =
      bind_ret (must (env_int interval_key (ℤ.pos default_flush_interval_s) env)) _ settings r2 in
    let (b4, e4, r4) =
      bind_ret (must (env_bool (codes "GOSTATS_LOGGING_SINK_DISABLED") false env)) _ settings r3 in
    let (idle, e5, r5) = bind_ret (must (env_int prune_key (ℤ.pos 0) env)) _ settings r4 in
    let same_idle : idle ≡ settings.prune_idle_seconds =
      ap (λ (r : Run Settings). elim r [ ret t ↦ t.prune_idle_seconds | panic ↦ idle ]) r5 in
    let same_interval : interval ≡ settings.flush_interval_s =
      ap (λ (r : Run Settings). elim r [ ret t ↦ t.flush_interval_s | panic ↦ interval ]) r5 in
    ap₂ (λ (x y : ℤ × Option EnvError). flushes_for (positive x) (positive y))
      (must_ret (env_int prune_key (ℤ.pos 0) env) idle e5 ∙ ap (λ (z : ℤ). (z, none)) same_idle)
      (must_ret (env_int interval_key (ℤ.pos default_flush_interval_s) env) interval e3
        ∙ ap (λ (z : ℤ). (z, none)) same_interval)
