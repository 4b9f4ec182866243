-- ===== src/Handler.antt =====
-- `wrapResponse` of stat_handler_wrapper.go and of stat_handler_wrapper_1.7.go.
pub mod Wraps
pub mod Responses
pub mod Serve
pub mod Served
use gostats.Prelude.{Bool, true, false, ◌&&◌, List, [], ◌∷◌, if◌then◌else◌}

-- The interfaces that a `http.ResponseWriter` may have besides.
pub data Interface : Type 0 where
  flusher : Interface
  hijacker : Interface
  pusher : Interface
  close_notifier : Interface

-- The interfaces that the result embeds besides the wrapped `http.ResponseWriter`; `can` tells the results
-- of the four type assertions.
unfoldable pub wrap_response : (Interface → Bool) → List Interface
wrap_response can =
    let can_flush = can Interface.flusher in
    let can_hijack = can Interface.hijacker in
    let can_push = can Interface.pusher in
    let can_notify = can Interface.close_notifier in
    if can_flush && can_hijack && can_push && can_notify
    then Interface.flusher ∷ Interface.hijacker ∷ Interface.pusher ∷ Interface.close_notifier ∷ []
    else if can_flush && can_hijack && can_push
    then Interface.flusher ∷ Interface.hijacker ∷ Interface.pusher ∷ []
    else if can_flush && can_hijack && can_notify
    then Interface.flusher ∷ Interface.hijacker ∷ Interface.close_notifier ∷ []
    else if can_flush && can_push && can_notify
    then Interface.flusher ∷ Interface.pusher ∷ Interface.close_notifier ∷ []
    else if can_hijack && can_push && can_notify
    then Interface.hijacker ∷ Interface.pusher ∷ Interface.close_notifier ∷ []
    else if can_flush && can_hijack
    then Interface.flusher ∷ Interface.hijacker ∷ []
    else if can_flush && can_push
    then Interface.flusher ∷ Interface.pusher ∷ []
    else if can_flush && can_notify
    then Interface.flusher ∷ Interface.close_notifier ∷ []
    else if can_hijack && can_push
    then Interface.hijacker ∷ Interface.pusher ∷ []
    else if can_hijack && can_notify
    then Interface.hijacker ∷ Interface.close_notifier ∷ []
    else if can_push && can_notify
    then Interface.pusher ∷ Interface.close_notifier ∷ []
    else if can_flush
    then Interface.flusher ∷ []
    else if can_hijack
    then Interface.hijacker ∷ []
    else if can_push
    then Interface.pusher ∷ []
    else if can_notify
    then Interface.close_notifier ∷ []
    else []

-- The same for Go 1.7, which has no `http.Pusher`.
unfoldable pub wrap_response_1_7 : (Interface → Bool) → List Interface
wrap_response_1_7 can =
    let can_flush = can Interface.flusher in
    let can_hijack = can Interface.hijacker in
    let can_notify = can Interface.close_notifier in
    if can_flush && can_hijack && can_notify
    then Interface.flusher ∷ Interface.hijacker ∷ Interface.close_notifier ∷ []
    else if can_flush && can_hijack
    then Interface.flusher ∷ Interface.hijacker ∷ []
    else if can_flush && can_notify
    then Interface.flusher ∷ Interface.close_notifier ∷ []
    else if can_hijack && can_notify
    then Interface.hijacker ∷ Interface.close_notifier ∷ []
    else if can_flush
    then Interface.flusher ∷ []
    else if can_hijack
    then Interface.hijacker ∷ []
    else if can_notify
    then Interface.close_notifier ∷ []
    else []
