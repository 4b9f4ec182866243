-- ===== src/Tests/SinksRuns.antt =====
-- Runs and instances for the other sinks, the handler's requests and the flushes of a store.
use gostats.Prelude.{
  ℕ, ◌+◌, ◌%◌, ◌≡◌, refl, false, List, [], ◌∷◌, ◌++◌, map, if◌then◌else◌, Run, ret,
}
use gostats.Bytes.{Bytes, codes, beq}
use gostats.Settings.{ℤ}
use gostats.Store.{u64, Timer, Call, Store}
use gostats.Store.Flush.{flush, generate_stats}
use gostats.Store.Labels.{owed, flushed}
use gostats.Store.Rejoin.{total}
use gostats.Sinks.{fold_calls}
use gostats.Sinks.MockSink.{new_mock_sink, mock_receive}
use gostats.Sinks.Recorder.{new_sink, sink_receive, counter, load_counter, sink_flush_counter}
use gostats.Sinks.Agreement.{Agree, mock_sinks-Agree}
use gostats.Sinks.Flushed.{flush-counter}
use gostats.Sinks.Verdicts.{passes, assert_counter_equals}
use gostats.Sinks.LoggingSink.{LoggingSink, logging_receive, told, telling, logging_sink-tells}
use gostats.Store.Registry.{new_counter}
use gostats.Scopes.Interface.{Scope}
use gostats.Handler.Responses.{Passed, Response, Op, header, body, passed}
use gostats.Handler.Responses.Codes.{code_name}
use gostats.Handler.Serve.{HttpHandler, serve_http}
use gostats.Handler.Served.{serve_http-CountsAndTimes}
use gostats.Tests.StoreRuns.{labels, store, store-IsValid}

abbrev add_numbers : ℕ → ℕ → ℕ
add_numbers a b = a + b

abbrev calls : List (Call ℕ)
calls =
    Call.flush_counter (codes "a") 5
    ∷ Call.flush_timer (codes "t") 7
    ∷ Call.flush_counter (codes "a") 6
    ∷ []

recorded-a :
    assert_counter_equals (fold_calls (sink_receive add_numbers) calls new_sink) (codes "a") 11
    ≡ passes
unfolding assert_counter_equals load_counter sink_receive new_sink beq sink_flush_counter
recorded-a = refl

mock_sinks-Agree_example :
    Agree
      (fold_calls mock_receive calls new_mock_sink)
      (fold_calls (sink_receive add_numbers) calls new_sink)
mock_sinks-Agree_example = mock_sinks-Agree add_numbers calls

flush-counter_example :
    (s' : Store ℕ) × (flush [] store ≡ ret s')
    × ((counter (fold_calls (sink_receive add_numbers) s'.calls new_sink) (codes "a")
            + owed (codes "a") labels s'.counter_heap)
          % u64
        ≡ (flushed (codes "a") store.calls + owed (codes "a") labels store.counter_heap) % u64)
unfolding generate_stats
flush-counter_example =
    flush-counter add_numbers labels [] store store (codes "a") refl store-IsValid

abbrev log_sink : LoggingSink ℕ
log_sink = record { lines = []; clock = λ n. n }

abbrev no_format : ℕ → Bytes
no_format n = n ∷ []

logging_sink-tells_example :
    map
      (told (λ n. n) no_format)
      (fold_calls (logging_receive (λ n. n) no_format) calls log_sink).lines
    ≡ map (told (λ n. n) no_format) log_sink.lines ++ map (telling (λ n. n) no_format) calls
logging_sink-tells_example = logging_sink-tells (λ n. n) no_format calls log_sink

-- A generator that makes a counter, or finds it.
abbrev makes : Store ℕ → Run (Store ℕ)
makes s = ret (new_counter (codes "g") s).1

abbrev handler : HttpHandler
handler = record {
  scope = Scope.sub_scope (record { name = codes "app"; tags = [] });
  timer = 0;
  codes = [];
}

abbrev request_time : Timer
request_time = record { base = 1000; name = codes "t"; active = false; idle_flushes = 1 }

abbrev to_number : ℤ → ℕ
to_number (ℤ.pos n) = n
to_number (ℤ.negsuc n) = 0

abbrev served : List Op
served = Op.pass Passed.get_header ∷ Op.write (codes "x") ∷ Op.write_header (ℤ.pos 404) ∷ []

serve_http-CountsAndTimes_example :
    (labels' : List Bytes) × (h' : HttpHandler) × (r' : Response ℕ) × (serve_http to_number handler
        (ℤ.pos 0)
        (ℤ.pos 5000)
        served
        store
      ≡ ret (h', r'))
    × (r'.sent ≡ passed Passed.get_header ∷ header (ℤ.pos 200) ∷ body (codes "x") ∷ [])
    × (r'.store.calls ≡ Call.flush_timer (codes "t") 5 ∷ [])
    × ((n : Bytes)
        → total labels' n r'.store % u64
          ≡ (total labels n store + (if beq (code_name handler.scope (ℤ.pos 200)) n then 1 else 0))
            % u64)
serve_http-CountsAndTimes_example =
    serve_http-CountsAndTimes to_number labels handler (ℤ.pos 0) (ℤ.pos 5000) served store
      request_time store-IsValid tt refl
