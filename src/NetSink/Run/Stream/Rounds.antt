-- ===== src/NetSink/Run/Stream/Rounds.antt =====
-- The rounds of the loop of net_sink.go, and the bytes.
use gostats.Prelude.{
  ℕ, ◌+◌, ◌%◌, ◌≤◌, ◌≡◌, refl, ◌∙◌, ap, ltb, true, false, Option, some, [], ◌∷◌, ◌++◌, append-nil,
  append_assoc, length, take, drop, Bool-cases, inl, inr, arith,
}
use gostats.Bytes.{Bytes}
use gostats.Store.{u64}
use gostats.NetSink.{
  NetSink, log_on_every, flush_buffer, handle_flush_error, handle_flush_error_size,
}
use gostats.NetSink.Writer.{concat, concat-append, bufio_flush_cases}
use gostats.NetSink.Run.{
  uncons-nil, uncons-cons, bind_some, Outcome, written, broken, Ready, tick, request, buffer, Loop,
  write_to_conn, answer, serve, retry_first, connected_round,
}
use gostats.NetSink.Run.Stream.{List-cases, stream, write_or_retry-Carries, write_pending-Carries}

-- A round, where the writes do `outcome` and `select` chooses `ready`, and what becomes of the bytes: they go on
-- in order; or the channel is full at a tick, and what the writer held is dropped; or the write of the buffer
-- to retry breaks, and the rest of it is dropped, with what the writer held.
pub data Sends (outcome : ℕ → Outcome) (ready : Ready) (s t : Loop) : Type 0 where
  carried :
      stream t ≡ stream s → t.sink.dropped_bytes ≡ s.sink.dropped_bytes → Sends outcome ready s t
  channel_full :
      ready ≡ tick
      → s.retryc ≡ []
      → s.sink.capacity ≤ length s.sink.outc
      → stream t ++ s.sink.buffered ≡ stream s
      → t.sink.dropped_bytes ≡ (s.sink.dropped_bytes + length s.sink.buffered) % u64
      → Sends outcome ready s t
  failed_again :
      (buf : Bytes) (n : ℕ)
      → outcome 1 ≡ broken n
      → s.retryc ≡ buf ∷ []
      → stream t ≡ s.delivered ++ take n buf ++ concat s.sink.outc
      → t.sink.dropped_bytes ≡ (s.sink.dropped_bytes + length (drop n buf)) % u64
      → Sends outcome ready s t

-- The state between two rounds.
pub record IsReady (s : Loop) : Type 0 where
  pub one : length s.retryc ≤ 1
  pub sound : s.sink.failed ≡ false

-- A round that ends, in a state from which the next begins.
abbrev pub Goes : (ℕ → Outcome) → Ready → Loop → Option Loop → Type 0
Goes outcome ready s r = (t : Loop) × (r ≡ some t) × IsReady t × Sends outcome ready s t

-- What a reset of the writer leaves.
handle_flush_error_size_lem :
    (d : ℕ) (s : NetSink)
    → ((handle_flush_error_size d s).buffered ≡ [])
      × ((handle_flush_error_size d s).failed ≡ false)
      × ((handle_flush_error_size d s).outc ≡ s.outc)
      × ((handle_flush_error_size d s).dropped_bytes ≡ (s.dropped_bytes + d) % u64)
unfolding handle_flush_error_size
handle_flush_error_size_lem d s =
    elim (Bool-cases
      (ltb (s.dropped_bytes % log_on_every) ((s.dropped_bytes + d) % u64 % log_on_every))) [
        | inl g ↦ rw g (refl, refl, refl, refl)
        | inr g ↦ rw g (refl, refl, refl, refl)
      ]

-- A tick, by the sink that it leaves.
tick_to-Goes :
    (outcome : ℕ → Outcome) (s : Loop) (n : NetSink)
    → s.retryc ≡ []
    → (flush_buffer s.sink).1 ≡ n
    → n.failed ≡ false
    → Sends outcome tick s (record s { sink = n })
    → Goes outcome tick s (some (record s { sink = (flush_buffer s.sink).1 }))
tick_to-Goes outcome s n none_left e sound sends = (
  record s { sink = n },
  ap (λ (x : NetSink). some (record s { sink = x })) e,
  record { one = rw none_left (omega arith); sound = sound },
  sends,
)

tick-Goes :
    (outcome : ℕ → Outcome) (s : Loop)
    → s.retryc ≡ []
    → s.sink.failed ≡ false
    → Goes outcome tick s (some (record s { sink = (flush_buffer s.sink).1 }))
unfolding flush_buffer handle_flush_error
tick-Goes outcome s none_left sound = elim (bufio_flush_cases s.sink sound) [
  | inl (empty, e) ↦ tick_to-Goes outcome s s.sink none_left (rw e refl) sound (carried refl refl)
  | inr (inl e) ↦
      let n : NetSink = record s.sink {
        outc = s.sink.outc ++ s.sink.buffered ∷ [];
        buffered = [];
      } in
      tick_to-Goes outcome s n none_left (rw e refl) sound (
        carried
          (ap (λ x. s.delivered ++ (concat s.retryc ++ x))
            (append-nil (concat n.outc)
              ∙ concat-append s.sink.outc (s.sink.buffered ∷ [])
              ∙ ap (◌++◌ (concat s.sink.outc)) (append-nil s.sink.buffered)))
          refl)
  | inr (inr (full, e)) ↦
      let n : NetSink =
        handle_flush_error_size (length s.sink.buffered) (record s.sink { failed = true }) in
      let (empty, fine, kept, dropped) =
        handle_flush_error_size_lem (length s.sink.buffered) (record s.sink { failed = true }) in
      tick_to-Goes outcome s n none_left (rw e refl) fine (
        channel_full refl none_left full (rw (empty, kept) (simp (append_assoc, append-nil)))
          dropped)
]

serve-Goes :
    (outcome : ℕ → Outcome) (ready : Ready) (s : Loop)
    → s.retryc ≡ []
    → s.sink.failed ≡ false
    → Goes outcome ready s (serve outcome ready s)
unfolding serve answer
serve-Goes outcome tick s none_left sound = tick-Goes outcome s none_left sound
serve-Goes outcome request s none_left sound =
    let still : IsReady s = record { one = rw none_left (omega arith); sound = sound } in
    elim (List-cases s.do_flush) [
      | inl e ↦ (s, uncons-nil s.do_flush _ _ e, still, carried refl refl)
      | inr (done, rest, e) ↦
          let (t, pending_t, kept) =
            write_pending-Carries outcome (length s.sink.outc) (record s { do_flush = rest })
              (omega arith) (rw none_left (omega arith)) (λ h. none_left) in
          (
            answer done t,
            uncons-cons s.do_flush _ _ done rest e ∙ bind_some _ _ t pending_t,
            record { one = kept.one; sound = kept.sound ∙ sound },
            carried kept.same kept.dropped,
          )
    ]
serve-Goes outcome buffer s none_left sound =
    let still : IsReady s = record { one = rw none_left (omega arith); sound = sound } in
    elim (List-cases s.sink.outc) [
      | inl e ↦ (s, uncons-nil s.sink.outc _ _ e, still, carried refl refl)
      | inr (buf, rest, e) ↦
          let (t, written_t, kept, left) =
            write_or_retry-Carries (outcome 1) buf rest s e none_left in
          (
            t,
            uncons-cons s.sink.outc _ _ buf rest e ∙ written_t,
            record { one = kept.one; sound = kept.sound ∙ sound },
            carried kept.same kept.dropped,
          )
    ]

-- The buffer to retry, where it is the only one.
retry-Goes :
    (outcome : ℕ → Outcome) (ready : Ready) (o : Outcome) (buf : Bytes) (s : Loop)
    → outcome 1 ≡ o
    → s.retryc ≡ buf ∷ []
    → s.sink.failed ≡ false
    → Goes outcome ready s (some (retry_first o buf [] s))
unfolding retry_first write_to_conn
retry-Goes outcome ready written buf s did one_left sound = (
  record s { retryc = []; delivered = s.delivered ++ buf },
  refl,
  record { one = omega arith; sound = sound },
  carried (rw one_left (simp (append_assoc, append-nil))) refl,
)
retry-Goes outcome ready (broken n) buf s did one_left sound =
    let sink : NetSink = handle_flush_error_size (length (drop n buf)) s.sink in
    let (empty, fine, kept, dropped) = handle_flush_error_size_lem (length (drop n buf)) s.sink in
    (
      record s {
        retryc = [];
        delivered = s.delivered ++ take n buf;
        connected = false;
        sink = sink;
      },
      refl,
      record { one = omega arith; sound = fine },
      failed_again buf n did one_left (rw (empty, kept) (simp (append_assoc, append-nil))) dropped,
    )

-- A round that is connected.
pub connected_round-Goes :
    (outcome : ℕ → Outcome) (ready : Ready) (s : Loop)
    → IsReady s
    → Goes outcome ready s (connected_round outcome ready s)
unfolding connected_round write_to_conn
connected_round-Goes outcome ready s h = elim (List-cases s.retryc) [
  | inl e ↦
      let (t, e', ready_t, sends) = serve-Goes outcome ready s e h.sound in
      (t, uncons-nil s.retryc _ _ e ∙ e', ready_t, sends)
  | inr (buf, rest, e) ↦ elim (List-cases rest) [
    | inr (x, more, e') ↦
        let two = ap length e in
        let three = ap length e' in let one = h.one in absurd (omega (arith, two, three, one))
    | inl last ↦
        let only : s.retryc ≡ buf ∷ [] = e ∙ ap (◌∷◌ buf) last in
        let (t, e', ready_t, sends) =
          retry-Goes outcome ready (outcome 1) buf s refl only h.sound in
        (t, uncons-cons s.retryc _ _ buf [] only ∙ e', ready_t, sends)
  ]
]
