-- ===== src/NetSink.antt =====
-- The writers of net_sink.go: a buffered writer, `bufio.Writer`, in front of a channel of buffers.
pub mod Writer
pub mod Lines
pub mod Dropped
pub mod Run
pub mod Calls
pub mod Create
use gostats.Prelude.{
  ℕ, zero, suc, ◌+◌, ◌-◌, ◌*◌, ◌%◌, ◌==◌, ltb, Bool, true, false, not, ◌&&◌, List, [], ◌∷◌, ◌++◌,
  if◌then◌else◌, length, take, drop,
}
use gostats.Bytes.{Bytes, codes, decimal}
use gostats.Store.{u64}

pub record NetSink : Type 0 where
  -- The buffers in the channel `outc`, and its capacity.
  pub outc : List Bytes
  pub capacity : ℕ
  -- The `bufio.Writer`: what it holds, its size, and whether it has an error.
  pub buffered : Bytes
  pub size : ℕ
  pub failed : Bool
  pub dropped_bytes : ℕ
  -- The numbers of dropped bytes that were logged.
  pub logs : List ℕ

abbrev pub available : NetSink → ℕ
available s = s.size - length s.buffered

-- `sinkWriter.Write`: the result is whether the channel had room.
unfoldable pub send : Bytes → NetSink → Bool × NetSink
send p s =
    if ltb (length s.outc) s.capacity
    then (true, record s { outc = s.outc ++ p ∷ [] })
    else (false, s)

-- `bufio.Writer.Flush`
unfoldable pub bufio_flush : NetSink → Bool × NetSink
unfolding send
bufio_flush s =
    if s.failed
    then (false, s)
    else if length s.buffered == 0
    then (true, s)
    else if (send s.buffered s).0
    then (true, record ((send s.buffered s).1) { buffered = [] })
    else (false, record ((send s.buffered s).1) { failed = true })

-- The loop of `bufio.Writer.Write`. A text that is longer than an empty buffer is written past it. Each
-- round empties the buffer or the text or sets the error, so three rounds are enough.
unfoldable pub write_loop : ℕ → Bytes → NetSink → Bytes × NetSink
unfolding send bufio_flush
write_loop zero p s = (p, s)
write_loop (suc fuel) p s = elim (ltb (available s) (length p) && not s.failed) [
  | false ↦ (p, s)
  | true ↦ elim (length s.buffered == 0) [
    | true ↦ elim (send p s).0 [
      | true ↦ write_loop fuel [] (send p s).1
      | false ↦ write_loop fuel p (record ((send p s).1) { failed = true })
    ]
    | false ↦
        write_loop fuel (drop (available s) p)
          (bufio_flush (record s { buffered = s.buffered ++ take (available s) p })).1
  ]
]

-- `bufio.Writer.Write`
unfoldable pub bufio_write : Bytes → NetSink → Bool × NetSink
unfolding write_loop
bufio_write p s =
    let rest = (write_loop 3 p s).0 in
    let s' = (write_loop 3 p s).1 in
    if s'.failed then (false, s') else (true, record s' { buffered = s'.buffered ++ rest })

-- `logOnEveryNDroppedBytes`
abbrev pub log_on_every : ℕ
log_on_every = 32 * 1024

unfoldable pub handle_flush_error_size : ℕ → NetSink → NetSink
handle_flush_error_size dropped s =
    let all = (s.dropped_bytes + dropped) % u64 in
    let s' = record s { dropped_bytes = all; buffered = []; failed = false } in
    if ltb (s.dropped_bytes % log_on_every) (all % log_on_every)
    then record s' { logs = s.logs ++ all ∷ [] }
    else s'

unfoldable pub handle_flush_error : NetSink → NetSink
unfolding handle_flush_error_size
handle_flush_error s = handle_flush_error_size (length s.buffered) s

-- `netSink.flush`, whose error is the first component.
unfoldable pub flush_buffer : NetSink → Bool × NetSink
unfolding bufio_flush handle_flush_error
flush_buffer s =
    if (bufio_flush s).0 then bufio_flush s else (false, handle_flush_error (bufio_flush s).1)

-- The first part of `writeBuffer`, which makes room.
unfoldable pub make_room : Bytes → NetSink → NetSink
unfolding flush_buffer
make_room b s = if ltb (available s) (length b) then (flush_buffer s).1 else s

unfoldable pub write_buffer : Bytes → NetSink → NetSink
unfolding make_room bufio_write handle_flush_error
write_buffer b s =
    let written = bufio_write b (make_room b s) in
    if written.0 then written.1 else handle_flush_error written.1

-- The line of `flushUint64`.
unfoldable pub stat_line : Bytes → Bytes → ℕ → Bytes
unfolding decimal
stat_line name suffix u = name ++ codes ":" ++ decimal 20 u [] ++ suffix

unfoldable pub flush_uint64 : Bytes → Bytes → ℕ → NetSink → NetSink
unfolding stat_line write_buffer
flush_uint64 name suffix u s = write_buffer (stat_line name suffix u) s

-- `"|c\n"` and `"|g\n"`
abbrev pub counter_suffix : Bytes
counter_suffix = codes "|c" ++ 10 ∷ []

abbrev pub gauge_suffix : Bytes
gauge_suffix = codes "|g" ++ 10 ∷ []

unfoldable pub flush_counter : Bytes → ℕ → NetSink → NetSink
unfolding flush_uint64
flush_counter name value s = flush_uint64 name counter_suffix value s

unfoldable pub flush_gauge : Bytes → ℕ → NetSink → NetSink
unfolding flush_uint64
flush_gauge name value s = flush_uint64 name gauge_suffix value s
