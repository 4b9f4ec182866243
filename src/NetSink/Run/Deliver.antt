-- ===== src/NetSink/Run/Deliver.antt =====
-- `Flush` of net_sink.go, from its request to its answer.
use gostats.Prelude.{
  ℕ, ◌<◌, ◌≡◌, refl, sym, ap, ap₂, ◌∙◌, ◌==◌, ==_iff, ltb, lt→ltb, Bool, true, false, Bool-cases,
  none, some, List, [], ◌∷◌, ◌++◌, append-nil, append_assoc, if◌then◌else◌, if_true, if_false,
  length, inl, inr,
}
use gostats.Bytes.{Bytes}
use gostats.NetSink.{NetSink, send, bufio_flush, flush_buffer}
use gostats.NetSink.Writer.{concat, concat-append, length-zero}
use gostats.NetSink.Run.{
  uncons-nil, uncons-cons, bind_some, Outcome, written, request, Loop, flush_capacity, answer,
  write_to_conn, write_or_retry, write_pending, serve, connected_round, round, request_flush,
}
use gostats.NetSink.Run.Stream.{stream}
use gostats.NetSink.Run.Stream.Dials.{reconnect_connected, round_after}

-- The network takes every write.
abbrev pub healthy : ℕ → Outcome
healthy n = written

-- Where the network takes every write, all buffers of the channel are delivered.
write_pending-healthy :
    (q : List Bytes) (s : Loop)
    → s.connected ≡ true
    → s.sink.outc ≡ q
    → write_pending healthy (length q) s
      ≡ some (record s { sink = record s.sink { outc = [] }; delivered = s.delivered ++ concat q })
unfolding write_pending write_or_retry write_to_conn
write_pending-healthy [] s e out =
    ap₂
      (λ (x : List Bytes) (y : Bytes).
        some (record s { sink = record s.sink { outc = x }; delivered = y }))
      out (sym (append-nil s.delivered))
write_pending-healthy (buf ∷ rest) s e out =
    let s1 : Loop = record s {
      sink = record s.sink { outc = rest };
      delivered = s.delivered ++ buf;
    } in
    if_true s.connected _ _ e
    ∙ uncons-cons s.sink.outc _ _ buf rest out
    ∙ write_pending-healthy rest s1 e refl
    ∙ ap (λ (y : Bytes). some (record s { sink = record s.sink { outc = [] }; delivered = y }))
        (append_assoc s.delivered buf (concat rest))

-- Where the channel has room, the writer is flushed to it.
bufio_flush-room :
    (s : NetSink)
    → s.failed ≡ false
    → length s.outc < s.capacity
    → (q : List Bytes) × (bufio_flush s ≡ (true, record s { outc = q; buffered = [] }))
      × (concat q ≡ concat s.outc ++ s.buffered)
unfolding bufio_flush send
bufio_flush-room s sound room = elim (Bool-cases (length s.buffered == 0)) [
  | inl e ↦
      let empty : s.buffered ≡ [] = length-zero s.buffered ((==_iff (length s.buffered) 0).0 e) in
      (
        s.outc,
        if_false s.failed _ _ sound
            ∙ if_true (length s.buffered == 0) _ _ e
            ∙ ap (λ (x : Bytes). (true, record s { buffered = x })) empty,
        sym (append-nil (concat s.outc)) ∙ ap (◌++◌ (concat s.outc)) (sym empty),
      )
  | inr e ↦ (
    s.outc ++ s.buffered ∷ [],
    if_false s.failed _ _ sound
        ∙ if_false (length s.buffered == 0) _ _ e
        ∙ rw (lt→ltb (length s.outc) s.capacity room) refl,
    concat-append s.outc (s.buffered ∷ []) ∙ ap (◌++◌ (concat s.outc)) (append-nil s.buffered),
  )
]

flush_buffer_lem : (s n : NetSink) → bufio_flush s ≡ (true, n) → flush_buffer s ≡ (true, n)
unfolding flush_buffer
flush_buffer_lem s n e = rw e refl

-- A Flush, on a connection that takes every write, with room in the channel of buffers, no buffer to retry and
-- no other request: it asks, and the next round that takes the request answers it. All that was delivered, in
-- the channel or in the writer's buffer when Flush was called has been delivered when the answer is given, in
-- that order, and at the end of the round nothing is left.
pub request_flush-Delivers :
    (dialled : Bool) (done : ℕ) (s : Loop)
    → s.connected ≡ true
    → s.retryc ≡ []
    → s.do_flush ≡ []
    → s.sink.failed ≡ false
    → length s.sink.outc < s.sink.capacity
    → (u t : Loop) × (request_flush done s ≡ some (true, u))
      × (round dialled healthy request u ≡ some t)
      × (t.delivered ≡ stream s)
      × (stream t ≡ stream s)
      × (t.answered ≡ (done, stream s) ∷ s.answered)
unfolding request_flush connected_round serve answer
request_flush-Delivers dialled done s e none_left none_asked sound room =
    let (q, moved, all) = bufio_flush-room s.sink sound room in
    let n : NetSink = record s.sink { outc = q; buffered = [] } in
    let flushed = flush_buffer_lem s.sink n moved in
    let u : Loop = record s { sink = n; do_flush = done ∷ [] } in
    let t : Loop = record u {
      sink = record n { outc = [] };
      delivered = s.delivered ++ concat q;
      do_flush = [];
      answered = (done, s.delivered ++ concat q) ∷ s.answered;
    } in
    let delivered : s.delivered ++ concat q ≡ stream s = ap (◌++◌ s.delivered) (
      all
      ∙ ap (λ (r : List Bytes). concat r ++ (concat s.sink.outc ++ s.sink.buffered))
          (sym none_left)) in
    (
      u,
      t,
      ap
            (λ (x : Bool × NetSink).
              if x.0
              then if ltb (length s.do_flush) flush_capacity
                then some (true, record s { sink = x.1; do_flush = s.do_flush ++ done ∷ [] })
                else none
              else some (false, record s { sink = x.1 }))
            flushed
          ∙ ap
              (λ (d : List ℕ).
                if ltb (length d) flush_capacity
                then some (true, record s { sink = n; do_flush = d ++ done ∷ [] })
                else none)
              none_asked,
      round_after dialled healthy request u (true, u) (reconnect_connected dialled u e)
          ∙ uncons-nil s.retryc _ _ none_left
          ∙ bind_some _ _ _ (write_pending-healthy q (record u { do_flush = [] }) e refl),
      delivered,
      ap (λ (r : List Bytes). (s.delivered ++ concat q) ++ (concat r ++ [])) none_left
          ∙ append-nil (s.delivered ++ concat q)
          ∙ delivered,
      ap (λ (x : Bytes). (done, x) ∷ s.answered) delivered,
    )
