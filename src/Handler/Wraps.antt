-- ===== src/Handler/Wraps.antt =====
-- The interfaces of what `wrapResponse` returns.
use gostats.Prelude.{◌≡◌, Bool, true, false, not, arith, ◌&&◌, List, tally, one_if}
use gostats.Handler.{Interface, wrap_response, wrap_response_1_7}

-- Whether two interfaces are the same.
unfoldable pub is_same : Interface → Interface → Bool
is_same Interface.flusher Interface.flusher = true
is_same Interface.hijacker Interface.hijacker = true
is_same Interface.pusher Interface.pusher = true
is_same Interface.close_notifier Interface.close_notifier = true
is_same i j = false

-- The list has an interface once if the writer has it, and else not at all.
abbrev pub Embeds : (Interface → Bool) → List Interface → Type 0
Embeds can embedded = (i : Interface) → tally (is_same i) embedded ≡ one_if (can i)

-- `wrapResponse` returns a writer that embeds exactly the interfaces that the given writer has, each once.
pub wrap_response-Embeds : (can : Interface → Bool) → Embeds can (wrap_response can)
unfolding wrap_response is_same
wrap_response-Embeds can Interface.flusher = ground arith
wrap_response-Embeds can Interface.hijacker = ground arith
wrap_response-Embeds can Interface.pusher = ground arith
wrap_response-Embeds can Interface.close_notifier = ground arith

-- For Go 1.7 it embeds each interface but `http.Pusher` once if the given writer has it, and `http.Pusher`
-- not at all.
pub wrap_response_1_7-Embeds :
    (can : Interface → Bool)
    → Embeds (λ i. can i && not (is_same i Interface.pusher)) (wrap_response_1_7 can)
unfolding wrap_response_1_7 is_same
wrap_response_1_7-Embeds can Interface.flusher = ground arith
wrap_response_1_7-Embeds can Interface.hijacker = ground arith
wrap_response_1_7-Embeds can Interface.pusher = ground arith
wrap_response_1_7-Embeds can Interface.close_notifier = ground arith
