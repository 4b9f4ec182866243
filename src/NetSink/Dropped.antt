-- ===== src/NetSink/Dropped.antt =====
-- `writeBuffer` of net_sink.go, and where the bytes go that it takes.
use gostats.Prelude.{
  ℕ, ◌+◌, ◌%◌, ◌≤◌, ◌≡◌, refl, ◌∙◌, ap, ltb, true, false, not, List, [], ◌∷◌, ◌++◌, arith, le→ltb,
  if_false, Bool-cases, inl, inr, length, length-append,
}
use gostats.Bytes.{Bytes}
use gostats.Store.{u64}
use gostats.NetSink.{
  NetSink, available, log_on_every, bufio_write, handle_flush_error_size, handle_flush_error,
  flush_buffer, make_room, write_buffer,
}
use gostats.NetSink.Writer.{
  bufio_flush_cases, write_loop_stop, bufio_write_lem, make_room-fits, and_first,
}

abbrev pub sum_lengths : List Bytes → ℕ
sum_lengths [] = 0
sum_lengths (p ∷ ps) = length p + sum_lengths ps

sum_lengths-append : (ps qs : List Bytes) → sum_lengths (ps ++ qs) ≡ sum_lengths ps + sum_lengths qs
sum_lengths-append [] qs = omega arith
sum_lengths-append (p ∷ ps) qs = omega (arith, sum_lengths-append ps qs)

-- The bytes in the channel and in the buffer, and those that were dropped.
abbrev pub accounted : NetSink → ℕ
accounted s = sum_lengths s.outc + length s.buffered + s.dropped_bytes

-- From one sink to another: the same size, no error, and `more` bytes accounted for, in `uint64`.
abbrev pub Accounts : ℕ → NetSink → NetSink → Type 0
Accounts more s s' =
    (s'.failed ≡ false) × (s'.size ≡ s.size) × (accounted s' % u64 ≡ (accounted s + more) % u64)

-- A reset counts as dropped what it is told.
reset-Accounts :
    (s : NetSink)
    → Accounts 0 s (handle_flush_error_size (length s.buffered) (record s { failed = true }))
unfolding handle_flush_error_size
reset-Accounts s =
    elim (Bool-cases (
      ltb (s.dropped_bytes % log_on_every)
        ((s.dropped_bytes + length s.buffered) % u64 % log_on_every))) [
          | inl g ↦ rw g (refl, refl, omega arith)
          | inr g ↦ rw g (refl, refl, omega arith)
        ]

pub flush_buffer-Accounts : (s : NetSink) → s.failed ≡ false → Accounts 0 s (flush_buffer s).1
unfolding flush_buffer handle_flush_error
flush_buffer-Accounts s h = elim (bufio_flush_cases s h) [
  | inl (empty, e) ↦ rw e (h, refl, omega arith)
  | inr (inl e) ↦ rw e (h, refl, omega (arith, sum_lengths-append s.outc (s.buffered ∷ [])))
  | inr (inr (full, e)) ↦ rw e (reset-Accounts s)
]

make_room-Accounts : (b : Bytes) (s : NetSink) → s.failed ≡ false → Accounts 0 s (make_room b s)
unfolding make_room
make_room-Accounts b s h = elim (Bool-cases (ltb (available s) (length b))) [
  | inl e ↦ rw e (flush_buffer-Accounts s h)
  | inr e ↦ rw e (h, refl, omega arith)
]

bufio_write-fits :
    (b : Bytes) (s : NetSink)
    → s.failed ≡ false
    → length b ≤ available s
    → bufio_write b s ≡ (true, record s { buffered = s.buffered ++ b })
bufio_write-fits b s h fits =
    bufio_write_lem b b s s (
      write_loop_stop 3 b s (
        and_first (ltb (available s) (length b)) (not s.failed)
          (le→ltb (available s) (length b) fits)))
    ∙ if_false s.failed _ _ h

-- `writeBuffer` of a text that fits an empty buffer: all its bytes, and those that were there before, are
-- in the channel, in the buffer or counted as dropped, in `uint64`; the writer is left without an error.
pub write_buffer-Accounts :
    (b : Bytes) (s : NetSink)
    → s.failed ≡ false
    → length b ≤ s.size
    → Accounts (length b) s (write_buffer b s)
unfolding write_buffer
write_buffer-Accounts b s h small =
    let s1 = make_room b s in
    let (sound, same, kept) = make_room-Accounts b s h in
    let fits : length b ≤ available s1 = elim (make_room-fits b s h) [
      | inl fits ↦ fits
      | inr empty ↦ let none = ap length empty in omega (arith, none, same, small)
    ] in
    rw (bufio_write-fits b s1 sound fits)
      (sound, same, omega (arith, length-append s1.buffered b, kept))
