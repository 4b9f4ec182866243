-- ===== src/NetSink/Run/Handshakes.antt =====
-- The requests of `Flush` of net_sink.go, and their answers.
use gostats.Prelude.{
  ℕ, zero, suc, ◌≤◌, ◌≡◌, refl, sym, ◌∙◌, ap, ap₂, Bool, true, false, some, List, [], ◌∷◌, if_true,
  if_false, length, Bool-cases, inl, inr, arith,
}
use gostats.Bytes.{Bytes}
use gostats.NetSink.Run.{
  uncons-nil, uncons-cons, bind_some, ◌>>=◌, Outcome, Ready, request, Loop, flush_capacity, answer,
  serve, drain_flush_queue, drain_loop, connected_round, round,
}
use gostats.NetSink.Run.Stream.{List-cases, write_pending-Carries}
use gostats.NetSink.Run.Stream.Dials.{reconnect_connected, reconnect_undialled, round_after}

-- The answers of requests, the first request first, where `taken` was delivered.
abbrev pub push_all : Bytes → List ℕ → List (ℕ × Bytes) → List (ℕ × Bytes)
push_all taken [] answers = answers
push_all taken (ch ∷ rest) answers = push_all taken rest ((ch, taken) ∷ answers)

none_to_answer :
    (s : Loop)
    → s.do_flush ≡ []
    → s ≡ record s { do_flush = []; answered = push_all s.delivered s.do_flush s.answered }
none_to_answer s e =
    ap₂ (λ (q r : List ℕ). record s { do_flush = q; answered = push_all s.delivered r s.answered })
      e (sym e)

drain_loop-answers :
    (n : ℕ) (s : Loop)
    → length s.do_flush ≤ n
    → drain_loop n s
      ≡ record s { do_flush = []; answered = push_all s.delivered s.do_flush s.answered }
unfolding drain_loop answer
drain_loop-answers zero s below = elim (List-cases s.do_flush) [
  | inl e ↦ none_to_answer s e
  | inr (ch, rest, e) ↦ let long = ap length e in absurd (omega (arith, long, below))
]
drain_loop-answers (suc n) s below = elim (List-cases s.do_flush) [
  | inl e ↦ uncons-nil s.do_flush _ _ e ∙ none_to_answer s e
  | inr (ch, rest, e) ↦
      let long = ap length e in
      let fewer : length rest ≤ n = omega (arith, long, below) in
      uncons-cons s.do_flush _ _ ch rest e
      ∙ drain_loop-answers n
          (record s { do_flush = rest; answered = (ch, s.delivered) ∷ s.answered }) fewer
      ∙ ap
          (λ (q : List ℕ). record s { do_flush = []; answered = push_all s.delivered q s.answered })
          (sym e)
]

-- A dial that fails after one that failed.
failed_again-answers :
    (outcome : ℕ → Outcome) (ready : Ready) (s : Loop)
    → s.connected ≡ false
    → s.reconnect_failed ≡ true
    → length s.do_flush ≤ 64
    → round false outcome ready s
      ≡ some (record s {
        do_flush = [];
        answered = push_all s.delivered s.do_flush s.answered;
        reconnect_failed = true;
      })
unfolding drain_flush_queue
failed_again-answers outcome ready s e f below =
    round_after false outcome ready s _ (reconnect_undialled s e)
    ∙ ap (λ (x : Loop). some (record x { reconnect_failed = true }))
        (if_true s.reconnect_failed _ _ f ∙ drain_loop-answers 64 s below)

-- While there is no connection, two dials that fail, one after the other, answer every request that the
-- channel of requests holds: Flush does not wait for a connection.
pub failed_dials-answer :
    (outcome outcome' : ℕ → Outcome) (ready ready' : Ready) (s : Loop)
    → s.connected ≡ false
    → length s.do_flush ≤ flush_capacity
    → (t : Loop) × ((round false outcome ready s >>= λ u. round false outcome' ready' u) ≡ some t)
      × (t.do_flush ≡ [])
      × (t.answered ≡ push_all s.delivered s.do_flush s.answered)
failed_dials-answer outcome outcome' ready ready' s e below = elim (Bool-cases s.reconnect_failed) [
  | inl f ↦
      let s1 : Loop = record s {
        do_flush = [];
        answered = push_all s.delivered s.do_flush s.answered;
        reconnect_failed = true;
      } in
      (
        s1,
        bind_some _ _ s1 (failed_again-answers outcome ready s e f (omega arith))
            ∙ failed_again-answers outcome' ready' s1 e refl (omega arith),
        refl,
        refl,
      )
  | inr f ↦
      let s1 : Loop = record s { reconnect_failed = true } in
      let first : round false outcome ready s ≡ some s1 =
        round_after false outcome ready s _ (reconnect_undialled s e)
        ∙ ap (λ (x : Loop). some (record x { reconnect_failed = true }))
            (if_false s.reconnect_failed _ _ f) in
      (
        record s1 { do_flush = []; answered = push_all s.delivered s.do_flush s.answered },
        bind_some _ _ s1 first ∙ failed_again-answers outcome' ready' s1 e refl (omega arith),
        refl,
        refl,
      )
]

-- A round that is connected, has no buffer to retry and takes a request answers it, whether the writes to the
-- connection fail or not, and does so when the connection has taken all that it takes in the round.
pub request-answers :
    (dialled : Bool) (outcome : ℕ → Outcome) (done : ℕ) (rest : List ℕ) (s : Loop)
    → s.connected ≡ true
    → s.retryc ≡ []
    → s.do_flush ≡ done ∷ rest
    → (t : Loop) × (round dialled outcome request s ≡ some t)
      × (t.answered ≡ (done, t.delivered) ∷ s.answered)
      × (t.do_flush ≡ rest)
unfolding connected_round serve answer
request-answers dialled outcome done rest s e none_left asked =
    let (t, pending_t, kept) =
      write_pending-Carries outcome (length s.sink.outc) (record s { do_flush = rest })
        (omega arith) (rw none_left (omega arith)) (λ h. none_left) in
    (
      record t { answered = (done, t.delivered) ∷ t.answered },
      round_after dialled outcome request s (true, s) (reconnect_connected dialled s e)
          ∙ uncons-nil s.retryc _ _ none_left
          ∙ uncons-cons s.do_flush _ _ done rest asked
          ∙ bind_some _ _ t pending_t,
      ap (◌∷◌ (done, t.delivered)) kept.answers,
      kept.queue,
    )
