-- ===== src/Handler/Serve.antt =====
-- `NewStatHandler` and `ServeHTTP` of stat_handler.go. What the wrapped handler does is the list of the calls
-- that it makes on its response writer.
use gostats.Prelude.{ℕ, false, List, [], Run, ret, ◌>>=◌}
use gostats.Bytes.{Bytes, codes}
use gostats.Settings.{ℤ}
use gostats.Store.{Store}
use gostats.Store.Spans.{allocate_span, complete}
use gostats.Scopes.Interface.{Scope, scope_timer}
use gostats.Handler.Responses.{Response, Op, respond}

-- `requestTimer`
abbrev pub request_timer : Bytes
request_timer = codes "rq_time_us"

pub record HttpHandler : Type 0 where
  pub scope : Scope
  pub timer : ℕ
  pub codes : List (ℤ × ℕ)

module _ {F : Type 0} where
  unfoldable pub new_stat_handler : Scope → Store F → Run (HttpHandler × Store F)
  unfolding scope_timer
  new_stat_handler scope s = do
    (timer, s') ← scope_timer scope request_timer s
    ret (record { scope = scope; timer = timer; codes = [] }, s')

  -- A request, from `now` on, that takes the time `elapsed`.
  unfoldable pub serve_http :
      (ℤ → F) → HttpHandler → ℤ → ℤ → List Op → Store F → Run (HttpHandler × Response F)
  unfolding respond complete
  serve_http float h now elapsed ops s = do
    let span = allocate_span h.timer now
    r ←
        respond h.scope ops
          (record { header_written = false; codes = h.codes; store = s; sent = [] })
    (d, s') ← complete float span elapsed r.store
    ret (record h { codes = r.codes }, record r { store = s' })
