-- ===== src/NetSink/Run/Stream/Dials.antt =====
-- The dials of the loop of net_sink.go, and its rounds.
use gostats.Prelude.{
  ℕ, zero, suc, ◌≡◌, refl, ◌∙◌, ap, Bool, true, false, some, List, ◌∷◌, if◌then◌else◌, if_true,
  if_false, Bool-cases, inl, inr,
}
use gostats.Bytes.{Bytes}
use gostats.NetSink.Run.{
  uncons-nil, uncons-cons, Outcome, Ready, Loop, answer, reconnect, drain_flush_queue, drain_loop,
  connected_round, round,
}
use gostats.NetSink.Run.Stream.{List-cases}
use gostats.NetSink.Run.Stream.Rounds.{
  IsReady, Sends, carried, channel_full, failed_again, Goes, connected_round-Goes,
}

-- What changes nothing of the buffers, before a round.
Sends-after :
    (outcome : ℕ → Outcome) (ready : Ready) (s : Loop) (connected failed : Bool) (t : Loop)
    → Sends outcome ready (record s { connected = connected; reconnect_failed = failed }) t
    → Sends outcome ready s t
Sends-after outcome ready s connected failed t (carried same dropped) = carried same dropped
Sends-after outcome ready s connected failed t (channel_full at none_left full lost dropped) =
    channel_full at none_left full lost dropped
Sends-after outcome ready s connected failed t (failed_again buf n did one_left after dropped) =
    failed_again buf n did one_left after dropped

-- Answers to requests leave the buffers alone.
pub drain_loop_lem :
    (n : ℕ) (s : Loop)
    → (queue : List ℕ) × (answers : List (ℕ × Bytes)) × (drain_loop n s
        ≡ record s { do_flush = queue; answered = answers })
unfolding drain_loop answer
drain_loop_lem zero s = (s.do_flush, s.answered, refl)
drain_loop_lem (suc n) s = elim (List-cases s.do_flush) [
  | inl e ↦ (s.do_flush, s.answered, uncons-nil s.do_flush _ _ e)
  | inr (ch, rest, e) ↦
      let (queue, answers, e') =
        drain_loop_lem n
          (record s { do_flush = rest; answered = (ch, s.delivered) ∷ s.answered }) in
      (queue, answers, uncons-cons s.do_flush _ _ ch rest e ∙ e')
]

-- A dial that fails.
undialled-Goes :
    (outcome : ℕ → Outcome) (ready : Ready) (s : Loop)
    → IsReady s
    → Goes outcome ready s (
        some (record (if s.reconnect_failed then drain_flush_queue s else s) {
          reconnect_failed = true;
        }))
unfolding drain_flush_queue
undialled-Goes outcome ready s h = elim (Bool-cases s.reconnect_failed) [
  | inl e ↦
      let (queue, answers, drained) = drain_loop_lem 64 s in
      (
        record s { do_flush = queue; answered = answers; reconnect_failed = true },
        ap (λ (x : Loop). some (record x { reconnect_failed = true }))
            (if_true s.reconnect_failed _ _ e ∙ drained),
        record { one = h.one; sound = h.sound },
        carried refl refl,
      )
  | inr e ↦ (
    record s { reconnect_failed = true },
    ap (λ (x : Loop). some (record x { reconnect_failed = true }))
        (if_false s.reconnect_failed _ _ e),
    record { one = h.one; sound = h.sound },
    carried refl refl,
  )
]

pub reconnect_connected :
    (dialled : Bool) (s : Loop) → s.connected ≡ true → reconnect dialled s ≡ (true, s)
unfolding reconnect
reconnect_connected dialled s e = if_true s.connected _ _ e

pub reconnect_dialled :
    (s : Loop)
    → s.connected ≡ false
    → reconnect true s ≡ (true, record s { connected = true; reconnect_failed = false })
unfolding reconnect
reconnect_dialled s e = if_false s.connected _ _ e

pub reconnect_undialled :
    (s : Loop)
    → s.connected ≡ false
    → reconnect false s ≡ (
      false,
      record (if s.reconnect_failed then drain_flush_queue s else s) { reconnect_failed = true },
    )
unfolding reconnect
reconnect_undialled s e = if_false s.connected _ _ e

-- A round, by what its dial led to.
pub round_after :
    (dialled : Bool) (outcome : ℕ → Outcome) (ready : Ready) (s : Loop) (tried : Bool × Loop)
    → reconnect dialled s ≡ tried
    → round dialled outcome ready s
      ≡ (if tried.0 then connected_round outcome ready tried.1 else some tried.1)
unfolding round
round_after dialled outcome ready s tried e =
    ap (λ (x : Bool × Loop). if x.0 then connected_round outcome ready x.1 else some x.1) e

not_connected-Goes :
    (dialled : Bool) (outcome : ℕ → Outcome) (ready : Ready) (s : Loop)
    → IsReady s
    → s.connected ≡ false
    → Goes outcome ready s (round dialled outcome ready s)
not_connected-Goes true outcome ready s h e =
    let s1 : Loop = record s { connected = true; reconnect_failed = false } in
    let (t, e', ready_t, sends) =
      connected_round-Goes outcome ready s1 (record { one = h.one; sound = h.sound }) in
    (
      t,
      round_after true outcome ready s (true, s1) (reconnect_dialled s e) ∙ e',
      ready_t,
      Sends-after outcome ready s true false t sends,
    )
not_connected-Goes false outcome ready s h e =
    let (t, e', ready_t, sends) = undialled-Goes outcome ready s h in
    (t, round_after false outcome ready s _ (reconnect_undialled s e) ∙ e', ready_t, sends)

-- Where at most one buffer waits to be retried and the writer has no error, a round of run ends, whatever
-- the network does, and leaves such a state: no send to retryc waits for ever. The bytes that were delivered
-- and those still to go stay the same bytes in the same order, and none is counted as dropped, but in two cases:
-- `select` chooses the tick, nothing is to be retried and the channel is full, and then what the writer held
-- is dropped and counted; or a buffer is to be retried and its write breaks, and then the rest of that buffer
-- is dropped and counted, and what the writer held is dropped and not counted.
pub round-Goes :
    (dialled : Bool) (outcome : ℕ → Outcome) (ready : Ready) (s : Loop)
    → IsReady s
    → Goes outcome ready s (round dialled outcome ready s)
round-Goes dialled outcome ready s h = elim (Bool-cases s.connected) [
  | inl e ↦
      let (t, e', ready_t, sends) = connected_round-Goes outcome ready s h in
      (
        t,
        round_after dialled outcome ready s (true, s) (reconnect_connected dialled s e) ∙ e',
        ready_t,
        sends,
      )
  | inr e ↦ not_connected-Goes dialled outcome ready s h e
]
