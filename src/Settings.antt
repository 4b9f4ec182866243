-- ===== src/Settings.antt =====
-- settings.go, what it uses of `strconv`, and `pruneAfterFlushesFromEnv` of stats.go. The environment is a
-- function from names to values; `os.Getenv` of a name that is not set is empty.
pub mod Rounding
pub mod Agreement
pub mod Decimals
use gostats.Prelude.{
  ℕ, zero, suc, ◌==◌, ◌+◌, ◌-◌, ◌*◌, ◌/◌, ◌%◌, ◌^◌, ltb, leb, Bool, true, false, ◌&&◌, Option, none,
  some, List, [], ◌∷◌, if◌then◌else◌, Run, ret, panic, ◌>>=◌,
}
use gostats.Bytes.{Bytes, beq, codes}
use gostats.Store.{u64, u32}

pub data ℤ : Type 0 where
  pos : ℕ → ℤ
  negsuc : ℕ → ℤ

-- `int` is an `int64`: at most `i64 - 1`, at least `-i64`.
abbrev pub i64 : ℕ
i64 = 2 ^ 63

abbrev pub negate : ℕ → ℤ
negate zero = ℤ.pos zero
negate (suc n) = ℤ.negsuc n

abbrev pub is_digit : ℕ → Bool
is_digit c = leb 48 c && leb c 57

unfoldable pub digits : ℕ → Bytes → Option ℕ
digits acc [] = some acc
digits acc (c ∷ s) = let rest = digits (acc * 10 + (c - 48)) s in if is_digit c then rest else none

-- The sign and the range of an `int`.
abbrev pub in_range : Bool → Option ℕ → Option ℤ
in_range negative none = none
in_range true (some n) = if leb n i64 then some (negate n) else none
in_range false (some n) = if ltb n i64 then some (ℤ.pos n) else none

unfoldable pub signed_digits : Bool → Bytes → Option ℤ
unfolding digits
signed_digits negative [] = none
signed_digits negative (c ∷ s) = in_range negative (digits 0 (c ∷ s))

-- `strconv.Atoi`; `none` is an error.
unfoldable pub atoi : Bytes → Option ℤ
unfolding signed_digits
atoi [] = none
atoi (c ∷ s) =
    if c == 45
    then signed_digits true s
    else if c == 43
    then signed_digits false s
    else signed_digits false (c ∷ s)

unfoldable pub is_among : List Bytes → Bytes → Bool
is_among [] s = false
is_among (w ∷ words) s = if beq w s then true else is_among words s

-- `strconv.ParseBool`
unfoldable pub parse_bool : Bytes → Option Bool
unfolding is_among
parse_bool s =
    if is_among
      (codes "1" ∷ codes "t" ∷ codes "T" ∷ codes "TRUE" ∷ codes "true" ∷ codes "True" ∷ []) s
    then some true
    else if is_among
        (codes "0" ∷ codes "f" ∷ codes "F" ∷ codes "FALSE" ∷ codes "false" ∷ codes "False" ∷ []) s
    then some false
    else none

pub record EnvError : Type 0 where
  pub key : Bytes
  pub value : Bytes

abbrev pub Env : Type 0
Env = Bytes → Bytes

unfoldable pub env_or : Bytes → Bytes → Env → Bytes
env_or key def env = elim (env key) [ [] ↦ def | c ∷ s ↦ c ∷ s ]

-- What `envInt` and `envBool` share: the value, and the error if there is one.
unfoldable pub env_parse : {A : Type 0} → (Bytes → Option A) → Bytes → A → Env → A × Option EnvError
env_parse parse key def env = elim (env key) [
  | [] ↦ (def, none)
  | c ∷ s ↦ elim (parse (c ∷ s)) [
    | none ↦ (def, some (record { key = key; value = c ∷ s }))
    | some a ↦ (a, none)
  ]
]

unfoldable pub env_int : Bytes → ℤ → Env → ℤ × Option EnvError
unfolding env_parse atoi
env_int key def env = env_parse atoi key def env

unfoldable pub env_bool : Bytes → Bool → Env → Bool × Option EnvError
unfolding env_parse parse_bool
env_bool key def env = env_parse parse_bool key def env

pub record Settings : Type 0 where
  pub use_statsd : Bool
  pub statsd_host : Bytes
  pub statsd_protocol : Bytes
  pub statsd_port : ℤ
  pub flush_interval_s : ℤ
  pub logging_sink_disabled : Bool
  pub prune_idle_seconds : ℤ

-- `if err != nil { panic(err) }`
abbrev pub must : {A : Type 0} → A × Option EnvError → Run A
must (a, none) = ret a
must (a, some e) = panic

abbrev pub default_flush_interval_s : ℕ
default_flush_interval_s = 5

abbrev pub prune_key : Bytes
prune_key = codes "GOSTATS_PRUNE_IDLE_SECONDS"

abbrev pub interval_key : Bytes
interval_key = codes "GOSTATS_FLUSH_INTERVAL_SECONDS"

unfoldable pub get_settings : Env → Run Settings
unfolding env_or env_int env_bool
get_settings env = do
  use_statsd ← must (env_bool (codes "USE_STATSD") true env)
  statsd_port ← must (env_int (codes "STATSD_PORT") (ℤ.pos 8125) env)
  flush_interval_s ← must (env_int interval_key (ℤ.pos default_flush_interval_s) env)
  logging_sink_disabled ← must (env_bool (codes "GOSTATS_LOGGING_SINK_DISABLED") false env)
  prune_idle_seconds ← must (env_int prune_key (ℤ.pos 0) env)
  ret (record {
    use_statsd = use_statsd;
    statsd_host = env_or (codes "STATSD_HOST") (codes "localhost") env;
    statsd_protocol = env_or (codes "STATSD_PROTOCOL") (codes "tcp") env;
    statsd_port = statsd_port;
    flush_interval_s = flush_interval_s;
    logging_sink_disabled = logging_sink_disabled;
    prune_idle_seconds = prune_idle_seconds;
  })

-- `uint32((idle + interval - 1) / interval)` with the clamp, for positive `int64`s. The sum wraps around
-- to a negative number when it reaches `i64`; `/` rounds to zero and the conversion to `uint32` is modulo.
unfoldable pub prune_flushes : ℕ → ℕ → ℕ
prune_flushes idle interval =
    let sum = idle + interval - 1 in
    if ltb sum i64
    then (if ltb (u32 - 1) (sum / interval) then u32 - 1 else sum / interval)
    else (u32 - (u64 - sum) / interval % u32) % u32

-- The guards on the two values: an error and a number that is not positive count as no value.
abbrev pub positive : ℤ × Option EnvError → Option ℕ
positive (i, some e) = none
positive (ℤ.pos zero, none) = none
positive (ℤ.pos (suc n), none) = some (suc n)
positive (ℤ.negsuc n, none) = none

abbrev pub flushes_for : Option ℕ → Option ℕ → ℕ
flushes_for none interval = 0
flushes_for (some idle) none = prune_flushes idle default_flush_interval_s
flushes_for (some idle) (some interval) = prune_flushes idle interval

unfoldable pub prune_after_flushes_from_env : Env → ℕ
unfolding env_int prune_flushes
prune_after_flushes_from_env env =
    flushes_for (positive (env_int prune_key (ℤ.pos 0) env))
      (positive (env_int interval_key (ℤ.pos default_flush_interval_s) env))
