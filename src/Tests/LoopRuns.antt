-- ===== src/Tests/LoopRuns.antt =====
-- Runs and instances for the loop of net_sink.go and for its calls.
use gostats.Prelude.{ℕ, ◌≡◌, refl, true, false, Option, none, some, List, [], ◌∷◌, arith}
use gostats.Bytes.{Bytes, beq, codes, decimal}
use gostats.Settings.{ℤ, Settings}
use gostats.Store.{Call}
use gostats.NetSink.{NetSink, stat_line, handle_flush_error_size}
use gostats.NetSink.Calls.{sum_lines, receive_all, receive_all-Accounts}
use gostats.NetSink.Create.{new_net_sink, SinkOption, with_statsd_protocol, with_statsd_host}
use gostats.NetSink.Dropped.{Accounts}
use gostats.NetSink.Run.{
  Outcome, broken, request, buffer, Loop, ◌>>=◌, write_to_conn, write_pending, write_or_retry,
  put_retry, serve, connected_round, retry_first, reconnect, round, request_flush,
}
use gostats.NetSink.Run.Deliver.{healthy, request_flush-Delivers}
use gostats.NetSink.Run.Stream.{stream}
use gostats.NetSink.Run.Handshakes.{failed_dials-answer, request-answers}
use gostats.NetSink.Run.Stream.Rounds.{Goes}
use gostats.NetSink.Run.Stream.Dials.{round-Goes}

abbrev full : NetSink
full = record {
  outc = codes "aa" ∷ codes "bb" ∷ [];
  capacity = 2;
  buffered = codes "cc";
  size = 8;
  failed = false;
  dropped_bytes = 0;
  logs = [];
}

-- A connected loop with two buffers to send, one request for a flush and another that waits.
abbrev busy : Loop
busy = record {
  sink = full;
  connected = true;
  retryc = [];
  do_flush = 1 ∷ 2 ∷ [];
  answered = [];
  reconnect_failed = false;
  delivered = [];
}

abbrev lost : Loop
lost = record busy { connected = false }

-- A buffer that failed once waits to be sent again.
abbrev retrying : Loop
retrying = record busy { retryc = codes "zz" ∷ [] }

-- The first write breaks after one byte.
abbrev breaks : ℕ → Outcome
breaks n = broken 1

abbrev parts : Option Loop → Option (Bytes × List Bytes × List Bytes × List (ℕ × Bytes))
parts none = none
parts (some s) = some (s.delivered, s.retryc, s.sink.outc, s.answered)

round-parts :
    parts (round true breaks request busy)
    ≡ some (codes "a", codes "a" ∷ [], codes "bb" ∷ [], (1, codes "a") ∷ [])
unfolding round reconnect connected_round serve write_pending write_or_retry write_to_conn put_retry
round-parts = refl

-- A retry that fails takes the writer's buffer with it, and does not count it.
abbrev losses : Option Loop → Option (Bytes × ℕ)
losses none = none
losses (some s) = some (s.sink.buffered, s.sink.dropped_bytes)

retry-losses : losses (round true breaks buffer retrying) ≡ some ([], 1)
unfolding round reconnect connected_round retry_first write_to_conn handle_flush_error_size
retry-losses = refl

round-Goes_example : Goes breaks buffer retrying (round true breaks buffer retrying)
round-Goes_example =
    round-Goes true breaks buffer retrying (record { one = omega arith; sound = refl })

failed_dials-answer_example :
    (t : Loop) × ((round false breaks buffer lost >>= λ u. round false breaks buffer u) ≡ some t)
    × (t.do_flush ≡ [])
    × (t.answered ≡ (2, []) ∷ (1, []) ∷ [])
failed_dials-answer_example =
    failed_dials-answer breaks breaks buffer buffer lost refl (omega arith)

request-answers_example :
    (t : Loop) × (round true breaks request busy ≡ some t)
    × (t.answered ≡ (1, t.delivered) ∷ [])
    × (t.do_flush ≡ 2 ∷ [])
request-answers_example = request-answers true breaks 1 (2 ∷ []) busy refl refl refl

-- A connected loop with room for a third buffer, and no request.
abbrev calm : Loop
calm = record busy { sink = record full { capacity = 4 }; do_flush = [] }

request_flush-Delivers_example :
    (u t : Loop) × (request_flush 3 calm ≡ some (true, u))
    × (round true healthy request u ≡ some t)
    × (t.delivered ≡ stream calm)
    × (stream t ≡ stream calm)
    × (t.answered ≡ (3, stream calm) ∷ [])
request_flush-Delivers_example =
    request_flush-Delivers true 3 calm refl refl refl refl (omega arith)

abbrev calls : List (Call ℕ)
calls = Call.flush_counter (codes "a") 5 ∷ Call.flush_timer (codes "t") 7 ∷ Call.flush_all ∷ []

abbrev roomy : NetSink
roomy = record full { size = 100 }

receive_all-Accounts_example :
    Accounts
      (sum_lines (λ n. some n) (λ n. []) calls)
      roomy
      (receive_all (λ n. some n) (λ n. []) calls roomy)
unfolding stat_line decimal
receive_all-Accounts_example =
    receive_all-Accounts (λ n. some n) (λ n. []) calls roomy refl
      (omega arith, (omega arith, (omega arith, tt)))

abbrev settings : Settings
settings = record {
  use_statsd = true;
  statsd_host = codes "localhost";
  statsd_protocol = codes "tcp";
  statsd_port = ℤ.pos 8125;
  flush_interval_s = ℤ.pos 5;
  logging_sink_disabled = false;
  prune_idle_seconds = ℤ.pos 0;
}

abbrev options : List SinkOption
options = with_statsd_protocol (codes "udp") ∷ with_statsd_host (codes "h") ∷ []

new_net_sink-sizes :
    ((new_net_sink settings options).1.sink.size ≡ 1432)
    × ((new_net_sink settings options).1.sink.capacity ≡ 2928)
    × ((new_net_sink settings []).1.sink.size ≡ 65536)
    × ((new_net_sink settings []).1.sink.capacity ≡ 64)
unfolding new_net_sink beq
new_net_sink-sizes = (refl, refl, refl, refl)
