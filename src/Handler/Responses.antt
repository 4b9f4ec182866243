-- ===== src/Handler/Responses.antt =====
-- stat_handler.go: the counters by status code, and the response writer that counts the code of its
-- header. The clock of the request timer is left out.
pub mod Codes
pub mod Once
use gostats.Prelude.{
  ℕ, zero, suc, ◌+◌, ◌/◌, ◌%◌, ltb, ◌==◌, Bool, true, false, Option, none, some, List, [], ◌∷◌,
  ◌++◌, if◌then◌else◌, Run, ret, panic, ◌>>=◌,
}
use gostats.Bytes.{Bytes, decimal}
use gostats.Settings.{ℤ}
use gostats.Store.{Store}
use gostats.Store.Counters.{inc}
use gostats.Scopes.Interface.{Scope, scope_counter}

-- The other methods that a response writer can have, which it has from the writer that it wraps: `Header`, and
-- those of the interfaces that `wrapResponse` embeds.
pub data Passed : Type 0 where
  get_header : Passed
  flush : Passed
  hijack : Passed
  push : Passed
  close_notify : Passed

-- `strconv.Itoa`
unfoldable pub itoa : ℤ → Bytes
unfolding decimal
itoa (ℤ.pos n) = decimal 20 n []
itoa (ℤ.negsuc n) = 45 ∷ decimal 20 (suc n) []

unfoldable pub same_code : ℤ → ℤ → Bool
same_code (ℤ.pos m) (ℤ.pos n) = m == n
same_code (ℤ.negsuc m) (ℤ.negsuc n) = m == n
same_code i j = false

-- A call that the wrapped `http.ResponseWriter` receives.
pub data Sent : Type 0 where
  header : ℤ → Sent
  body : Bytes → Sent
  passed : Passed → Sent

-- The state of a response writer, of its handler's `codes`, and of the store.
pub record Response (F : Type 0) : Type 0 where
  pub header_written : Bool
  pub codes : List (ℤ × ℕ)
  pub store : Store F
  pub sent : List Sent

unfoldable pub find_code : ℤ → List (ℤ × ℕ) → Option ℕ
unfolding same_code
find_code code [] = none
find_code code ((c, i) ∷ codes) = if same_code c code then some i else find_code code codes

-- A call of a method of the response writer.
pub data Op : Type 0 where
  write_header : ℤ → Op
  write : Bytes → Op
  pass : Passed → Op

module _ {F : Type 0} (scope : Scope) where
  -- `httpHandler.counter`
  unfoldable pub code_counter : ℤ → Response F → Run (ℕ × Response F)
  unfolding find_code itoa scope_counter
  code_counter code r = elim (find_code code r.codes) [
    | some i ↦ ret (i, r)
    | none ↦ do
      made ← scope_counter scope (itoa code) r.store
      ret (made.0, record r { codes = (code, made.0) ∷ r.codes; store = made.1 })
  ]

  -- `responseWriter.WriteHeader`
  unfoldable pub write_code : ℤ → Response F → Run (Response F)
  unfolding code_counter
  write_code code r = if r.header_written then ret r else (do
    found ← code_counter code (record r { header_written = true })
    let r1 = found.1
    s ← inc found.0 r1.store
    ret (record r1 { store = s; sent = r1.sent ++ header code ∷ [] }))

  -- `responseWriter.Write`; what it returns is the wrapped writer's.
  unfoldable pub write_body : Bytes → Response F → Run (Response F)
  unfolding write_code
  write_body b r = do
    r1 ← if r.header_written then ret r else write_code (ℤ.pos 200) r
    ret (record r1 { sent = r1.sent ++ body b ∷ [] })

  unfoldable pub step : Op → Response F → Run (Response F)
  unfolding write_code write_body
  step (Op.write_header code) r = write_code code r
  step (Op.write b) r = write_body b r
  step (Op.pass p) r = ret (record r { sent = r.sent ++ passed p ∷ [] })

  -- What a handler does with its response writer: some calls, one after the other.
  unfoldable pub respond : List Op → Response F → Run (Response F)
  unfolding step
  respond [] r = ret r
  respond (op ∷ ops) r = do r1 ← step op r; respond ops r1
