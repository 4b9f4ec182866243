-- ===== src/NetSink/Calls.antt =====
-- The calls of a store to the sink of net_sink.go. `F` is `float64`; `whole v` is `uint64(v)` where `v` is a
-- whole number that `FlushTimer` writes as one, and `format v` is how `strconv` writes `v` with six decimals.
use gostats.Prelude.{
  ℕ, ◌+◌, ◌≤◌, ◌≡◌, refl, ◌∙◌, false, Option, none, some, Option-cases, inl, inr, List, [], ◌∷◌,
  ◌++◌, length, All, arith,
}
use gostats.Bytes.{Bytes, codes}
use gostats.Store.{Call}
use gostats.NetSink.{
  NetSink, flush_buffer, write_buffer, stat_line, flush_uint64, counter_suffix, gauge_suffix,
  flush_counter, flush_gauge,
}
use gostats.NetSink.Dropped.{Accounts, write_buffer-Accounts, flush_buffer-Accounts}

-- `"|ms\n"`
abbrev pub timer_suffix : Bytes
timer_suffix = codes "|ms" ++ 10 ∷ []

module _ {F : Type 0} (whole : F → Option ℕ) (format : F → Bytes) where
  -- The line of `flushFloat64`.
  abbrev pub float_line : Bytes → Bytes → F → Bytes
  float_line name suffix f = name ++ codes ":" ++ format f ++ suffix

  unfoldable pub flush_float64 : Bytes → Bytes → F → NetSink → NetSink
  unfolding write_buffer
  flush_float64 name suffix f s = write_buffer (float_line name suffix f) s

  unfoldable pub flush_timer : Bytes → F → NetSink → NetSink
  unfolding flush_uint64 flush_float64
  flush_timer name value s = elim (whole value) [
    | some u ↦ flush_uint64 name timer_suffix u s
    | none ↦ flush_float64 name timer_suffix value s
  ]

  -- What the sink does at a call of the store. The handshake of `Flush` with the loop that sends follows.
  unfoldable pub receive : Call F → NetSink → NetSink
  unfolding flush_counter flush_gauge flush_timer flush_buffer
  receive (Call.flush_counter name value) s = flush_counter name value s
  receive (Call.flush_gauge name value) s = flush_gauge name value s
  receive (Call.flush_timer name value) s = flush_timer name value s
  receive Call.flush_all s = (flush_buffer s).1

  unfoldable pub receive_all : List (Call F) → NetSink → NetSink
  unfolding receive
  receive_all [] s = s
  receive_all (c ∷ calls) s = receive_all calls (receive c s)

  abbrev pub timer_line : Bytes → F → Option ℕ → Bytes
  timer_line name value (some u) = stat_line name timer_suffix u
  timer_line name value none = float_line name timer_suffix value

  -- The line of a call.
  abbrev pub line_of : Call F → Bytes
  line_of (Call.flush_counter name value) = stat_line name counter_suffix value
  line_of (Call.flush_gauge name value) = stat_line name gauge_suffix value
  line_of (Call.flush_timer name value) = timer_line name value (whole value)
  line_of Call.flush_all = []

  abbrev pub sum_lines : List (Call F) → ℕ
  sum_lines [] = 0
  sum_lines (c ∷ calls) = length (line_of c) + sum_lines calls

  receive-Accounts :
      (c : Call F) (s : NetSink)
      → s.failed ≡ false
      → length (line_of c) ≤ s.size
      → Accounts (length (line_of c)) s (receive c s)
  unfolding receive flush_counter flush_gauge flush_uint64 flush_timer flush_float64
  receive-Accounts (Call.flush_counter name value) s sound fits =
      write_buffer-Accounts _ s sound fits
  receive-Accounts (Call.flush_gauge name value) s sound fits = write_buffer-Accounts _ s sound fits
  receive-Accounts (Call.flush_timer name value) s sound fits = elim (Option-cases (whole value)) [
    | inl e ↦
        rw (e, receive, flush_timer)
          (write_buffer-Accounts _ s sound (rw (e, line_of, timer_line) at fits))
    | inr (u, e) ↦
        rw (e, receive, flush_timer)
          (write_buffer-Accounts _ s sound (rw (e, line_of, timer_line) at fits))
  ]
  receive-Accounts Call.flush_all s sound fits = flush_buffer-Accounts s sound

  -- The calls of a store, whose lines each fit the buffer of a writer without an error: all the bytes of their
  -- lines, and those that were there before, are in the channel, in the buffer or counted as dropped, in
  -- uint64, and the writer has no error.
  pub receive_all-Accounts :
      (calls : List (Call F)) (s : NetSink)
      → s.failed ≡ false
      → All (λ c. length (line_of c) ≤ s.size) calls
      → Accounts (sum_lines calls) s (receive_all calls s)
  unfolding receive_all
  receive_all-Accounts [] s sound fits = (sound, refl, omega arith)
  receive_all-Accounts (c ∷ calls) s sound (fits, all) =
      let (sound1, size1, kept1) = receive-Accounts c s sound fits in
      let all1 : All (λ (x : Call F). length (line_of x) ≤ (receive c s).size) calls =
        rw size1 all in
      let (sound2, size2, kept2) = receive_all-Accounts calls (receive c s) sound1 all1 in
      (sound2, size2 ∙ size1, omega (arith, kept1, kept2))
