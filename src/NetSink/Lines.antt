-- ===== src/NetSink/Lines.antt =====
-- How lines lie in the buffers of net_sink.go, whatever `writeBuffer` writes.
use gostats.Prelude.{
  ℕ, ◌+◌, ◌%◌, ◌≡◌, refl, ◌∙◌, ap, ltb, true, false, List, [], ◌∷◌, ◌++◌, append-nil, ◌⊎◌,
  Bool-cases, inl, inr, length, All, All-append,
}
use gostats.Bytes.{Bytes}
use gostats.Store.{u64}
use gostats.NetSink.{
  NetSink, available, stat_line, counter_suffix, gauge_suffix, flush_counter, flush_gauge,
  log_on_every, handle_flush_error_size, handle_flush_error, flush_buffer, make_room, write_buffer,
}
use gostats.NetSink.Writer.{
  concat, concat-append, bufio_flush_cases, make_room-fits, bufio_write_cases,
}

module _ (IsLine : Bytes → Type 0) where
  -- A text that is some lines, one after the other.
  abbrev pub IsWhole : Bytes → Type 0
  IsWhole b = (ls : List Bytes) × All IsLine ls × (concat ls ≡ b)

  IsWhole-append : (b l : Bytes) → IsWhole b → IsLine l → IsWhole (b ++ l)
  IsWhole-append b l (ls, h, e) hl = (
    ls ++ l ∷ [],
    All-append IsLine ls (l ∷ []) h (hl, tt),
    concat-append ls (l ∷ []) ∙ ap (λ (x : Bytes). x ++ (l ++ [])) e ∙ ap (◌++◌ b) (append-nil l),
  )

  IsWhole-line : (l : Bytes) → IsLine l → IsWhole l
  IsWhole-line l hl = (l ∷ [], (hl, tt), append-nil l)

  -- The writer has no error, and every buffer, sent or not, is some lines.
  pub record HoldsLines (s : NetSink) : Type 0 where
    pub sound : s.failed ≡ false
    pub sent : All IsWhole s.outc
    pub held : IsWhole s.buffered

  reset-HoldsLines :
      (dropped : ℕ) (s : NetSink)
      → All IsWhole s.outc
      → HoldsLines (handle_flush_error_size dropped s)
  unfolding handle_flush_error_size
  reset-HoldsLines dropped s h =
      elim (Bool-cases
        (ltb (s.dropped_bytes % log_on_every) ((s.dropped_bytes + dropped) % u64 % log_on_every))) [
          | inl e ↦ rw e (record { sound = refl; sent = h; held = ([], tt, refl) })
          | inr e ↦ rw e (record { sound = refl; sent = h; held = ([], tt, refl) })
        ]

  flush_buffer-HoldsLines : (s : NetSink) → HoldsLines s → HoldsLines (flush_buffer s).1
  unfolding flush_buffer handle_flush_error
  flush_buffer-HoldsLines s h = elim (bufio_flush_cases s h.sound) [
    | inl (empty, e) ↦ rw e h
    | inr (inl e) ↦ rw e (record {
      sound = h.sound;
      sent = All-append IsWhole s.outc (s.buffered ∷ []) h.sent (h.held, tt);
      held = ([], tt, refl);
    })
    | inr (inr (full, e)) ↦
        rw e (reset-HoldsLines (length s.buffered) (record s { failed = true }) h.sent)
  ]

  make_room-HoldsLines : (b : Bytes) (s : NetSink) → HoldsLines s → HoldsLines (make_room b s)
  unfolding make_room
  make_room-HoldsLines b s h = elim (Bool-cases (ltb (available s) (length b))) [
    | inl e ↦ rw e (flush_buffer-HoldsLines s h)
    | inr e ↦ rw e h
  ]

  -- `writeBuffer` of a line leaves the writer without an error, and every buffer, the current one and
  -- those in the channel, made of whole lines: no line is split between two buffers, even one that is
  -- longer than a buffer, and where the channel is full whole buffers are dropped.
  pub write_buffer-HoldsLines :
      (b : Bytes) (s : NetSink) → IsLine b → HoldsLines s → HoldsLines (write_buffer b s)
  unfolding write_buffer handle_flush_error
  write_buffer-HoldsLines b s hb h =
      let s1 = make_room b s in
      let h1 = make_room-HoldsLines b s h in
      elim (bufio_write_cases b s1 h1.sound (make_room-fits b s h.sound)) [
        | inl e ↦ rw e (record {
          sound = h1.sound;
          sent = h1.sent;
          held = IsWhole-append s1.buffered b h1.held hb;
        })
        | inr (inl e) ↦ rw e (record {
          sound = h1.sound;
          sent = All-append IsWhole s1.outc (b ∷ []) h1.sent (IsWhole-line b hb, tt);
          held = ([], tt, refl);
        })
        | inr (inr e) ↦
            rw e (reset-HoldsLines (length s1.buffered) (record s1 { failed = true }) h1.sent)
      ]

-- A statistic of the sink: a name, a number and the kind that the suffix tells.
abbrev pub IsStat : Bytes → Type 0
IsStat b =
    (name : Bytes) × (value : ℕ) × ((b ≡ stat_line name counter_suffix value)
      ⊎ (b ≡ stat_line name gauge_suffix value))

-- `FlushCounter` and `FlushGauge` leave every buffer made of whole statistics, with the one that they were
-- given whole or dropped.
pub flush_counter-HoldsLines :
    (name : Bytes) (value : ℕ) (s : NetSink)
    → HoldsLines IsStat s
    → HoldsLines IsStat (flush_counter name value s) × HoldsLines IsStat (flush_gauge name value s)
unfolding flush_counter flush_gauge
flush_counter-HoldsLines name value s h = (
  write_buffer-HoldsLines IsStat (stat_line name counter_suffix value) s (name, value, inl refl) h,
  write_buffer-HoldsLines IsStat (stat_line name gauge_suffix value) s (name, value, inr refl) h,
)
