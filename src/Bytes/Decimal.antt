-- ===== src/Bytes/Decimal.antt =====
-- `strconv.AppendUint` in base 10. An `uint64` has at most 20 digits, so 20 rounds are enough.
use gostats.Prelude.{ℕ, zero, suc, ◌+◌, ◌/◌, ◌%◌, ltb, ◌∷◌, if◌then◌else◌}
use gostats.Bytes.Defs.{Bytes}

unfoldable pub decimal : ℕ → ℕ → Bytes → Bytes
decimal zero n acc = acc
decimal (suc fuel) n acc =
    let rest = decimal fuel (n / 10) ((48 + n % 10) ∷ acc) in
    if ltb n 10 then (48 + n) ∷ acc else rest
