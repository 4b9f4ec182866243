-- ===== src/NetSink/Run.antt =====
-- The loop of net_sink.go that sends the buffers: `run`, `writeToConn`, `connect` and `drainFlushQueue`. What
-- the network does is an argument of each round.
pub mod Stream
pub mod Handshakes
pub mod Deliver
use gostats.Prelude.{
  ℕ, zero, suc, ◌+◌, ◌-◌, ◌*◌, ltb, Bool, true, false, not, Option, none, some, ◌≡◌, refl, List, [],
  ◌∷◌, ◌++◌, if◌then◌else◌, length, take, drop,
}
use gostats.Bytes.{Bytes}
use gostats.NetSink.{NetSink, flush_buffer, handle_flush_error_size}

-- The first item of a list, or what there is to do without one.
abbrev pub uncons {ℓ κ} : {A : Type ℓ} {B : Type κ} → List A → B → (A → List A → B) → B
uncons [] none_left f = none_left
uncons (x ∷ xs) none_left f = f x xs

-- The next step of a loop that has not stopped for ever.
infixl 10 ◌>>=◌
abbrev pub ◌>>=◌ {ℓ κ} : {A : Type ℓ} {B : Type κ} → Option A → (A → Option B) → Option B
none >>= f = none
some a >>= f = f a

pub uncons-nil {ℓ κ} :
    {A : Type ℓ} {B : Type κ} (xs : List A) (d : B) (f : A → List A → B)
    → xs ≡ []
    → uncons xs d f ≡ d
uncons-nil xs d f e = rw e refl

pub uncons-cons {ℓ κ} :
    {A : Type ℓ} {B : Type κ} (xs : List A) (d : B) (f : A → List A → B) (x : A) (rest : List A)
    → xs ≡ x ∷ rest
    → uncons xs d f ≡ f x rest
uncons-cons xs d f x rest e = rw e refl

pub bind_some {ℓ κ} :
    {A : Type ℓ} {B : Type κ} (o : Option A) (f : A → Option B) (a : A)
    → o ≡ some a
    → (o >>= f) ≡ f a
bind_some o f a e = rw e refl

-- A write to the connection: all of the buffer, or an error after some of its bytes.
pub data Outcome : Type 0 where
  written : Outcome
  broken : ℕ → Outcome

-- What a `select` chooses among what is ready.
pub data Ready : Type 0 where
  tick : Ready
  request : Ready
  buffer : Ready

pub record Loop : Type 0 where
  pub sink : NetSink
  -- whether `conn` is not nil
  pub connected : Bool
  pub retryc : List Bytes
  -- The requests in `doFlush`, and those that were answered, the last one first, each with what the connections
  -- had taken by then, which the program does not keep.
  pub do_flush : List ℕ
  pub answered : List (ℕ × Bytes)
  pub reconnect_failed : Bool
  -- The bytes that the connections took.
  pub delivered : Bytes

-- `cap(s.retryc)` and `cap(s.doFlush)`
abbrev pub retry_capacity : ℕ
retry_capacity = 1

abbrev pub flush_capacity : ℕ
flush_capacity = 8

-- `writeToConn`: what is left of the buffer, if there is an error.
unfoldable pub write_to_conn : Outcome → Bytes → Loop → Option Bytes × Loop
write_to_conn written buf s = (none, record s { delivered = s.delivered ++ buf })
write_to_conn (broken n) buf s =
    (some (drop n buf), record s { delivered = s.delivered ++ take n buf; connected = false })

-- `s.retryc <- buf` of the only goroutine that receives from it: `none` where it would wait for ever.
unfoldable pub put_retry : Bytes → Loop → Option Loop
put_retry buf s =
    if ltb (length s.retryc) retry_capacity
    then some (record s { retryc = s.retryc ++ buf ∷ [] })
    else none

unfoldable pub answer : ℕ → Loop → Loop
answer done s = record s { answered = (done, s.delivered) ∷ s.answered }

-- The rounds of `drainFlushQueue`.
unfoldable pub drain_loop : ℕ → Loop → Loop
drain_loop zero s = s
drain_loop (suc n) s =
    uncons s.do_flush s (λ ch rest. drain_loop n (answer ch (record s { do_flush = rest })))

unfoldable pub drain_flush_queue : Loop → Loop
unfolding drain_loop
drain_flush_queue s = drain_loop (flush_capacity * 8) s

-- A buffer of `outc` goes to the connection, or what is left of it to `retryc`.
unfoldable pub write_or_retry : Outcome → Bytes → Loop → Option Loop
unfolding write_to_conn put_retry
write_or_retry o buf s = elim (write_to_conn o buf s).0 [
  | none ↦ some (write_to_conn o buf s).1
  | some rest ↦ put_retry rest (write_to_conn o buf s).1
]

-- The loop over the `n` buffers that were in `outc` when a flush was asked for; `outcome n` is what the write
-- does that has `n` buffers to go.
unfoldable pub write_pending : (ℕ → Outcome) → ℕ → Loop → Option Loop
unfolding write_or_retry
write_pending outcome zero s = some s
write_pending outcome (suc n) s =
    if s.connected
    then uncons s.sink.outc none (λ buf rest. do
      t ← write_or_retry (outcome (suc n)) buf (record s { sink = record s.sink { outc = rest } })
      write_pending outcome n t)
    else some s

-- The last `select` of a round. Where the choice is not ready, the loop waits: nothing changes.
unfoldable pub serve : (ℕ → Outcome) → Ready → Loop → Option Loop
unfolding write_pending write_or_retry flush_buffer answer
serve outcome tick s = some (record s { sink = (flush_buffer s.sink).1 })
serve outcome request s = uncons s.do_flush (some s) (λ done rest. do
  t ← write_pending outcome (length s.sink.outc) (record s { do_flush = rest })
  some (answer done t))
serve outcome buffer s =
    uncons s.sink.outc (some s) (λ buf rest.
      write_or_retry (outcome 1) buf (record s { sink = record s.sink { outc = rest } }))

-- `connect` and what follows it; the result is whether the round goes on.
unfoldable pub reconnect : Bool → Loop → Bool × Loop
unfolding drain_flush_queue
reconnect dialled s =
    if s.connected
    then (true, s)
    else if dialled
    then (true, record s { connected = true; reconnect_failed = false })
    else (
      false,
      record (if s.reconnect_failed then drain_flush_queue s else s) { reconnect_failed = true },
    )

-- The buffer to retry is written, or what is left of it is dropped.
unfoldable pub retry_first : Outcome → Bytes → List Bytes → Loop → Loop
unfolding write_to_conn handle_flush_error_size
retry_first o buf rest s =
    let tried = write_to_conn o buf (record s { retryc = rest }) in
    elim tried.0 [
      | none ↦ tried.1
      | some left ↦ record tried.1 { sink = handle_flush_error_size (length left) tried.1.sink }
    ]

-- What a round does that is connected: the buffer to retry comes first.
unfoldable pub connected_round : (ℕ → Outcome) → Ready → Loop → Option Loop
unfolding retry_first serve
connected_round outcome ready s =
    uncons s.retryc (serve outcome ready s) (λ buf rest. some (retry_first (outcome 1) buf rest s))

-- A round of `run`: whether a dial succeeds, what the writes do, and what `select` chooses.
unfoldable pub round : Bool → (ℕ → Outcome) → Ready → Loop → Option Loop
unfolding reconnect connected_round
round dialled outcome ready s =
    let tried = reconnect dialled s in
    if tried.0 then connected_round outcome ready tried.1 else some tried.1

-- `Flush`: the state after it has asked for a flush, or, where the writer's flush fails, after that, and
-- whether it waits for an answer. Where the channel of requests is full it waits for room: `none`.
unfoldable pub request_flush : ℕ → Loop → Option (Bool × Loop)
unfolding flush_buffer
request_flush done s =
    let tried = flush_buffer s.sink in
    let s' = record s { sink = tried.1 } in
    if tried.0
    then if ltb (length s.do_flush) flush_capacity
      then some (true, record s' { do_flush = s.do_flush ++ done ∷ [] })
      else none
    else some (false, s')
