-- ===== src/Handler/Served.antt =====
-- A request of stat_handler.go, from the wrapped handler's calls to the timer.
use gostats.Prelude.{
  ℕ, ◌+◌, ◌%◌, true, false, List, [], ◌∷◌, ◌++◌, ◌≡◌, refl, ap, subst, ◌∙◌, some, get_elem?, set,
  if◌then◌else◌, arith, Run, ret, ◌>>=◌,
}
use gostats.Bytes.{Bytes}
use gostats.Settings.{ℤ}
use gostats.Store.{u64, Timer, Call, Store}
use gostats.Store.Counters.{inc}
use gostats.Store.Keeps.{
  Keeps, Keeps-option, Keeps-if, Keeps-chain, Keeps-ret, other_heaps, inc-Keeps,
  new_counter-other_heaps,
}
use gostats.Store.Labels.{IsValid, flushed-append}
use gostats.Store.Registry.{add_timer_value}
use gostats.Store.Rejoin.{total}
use gostats.Store.Spans.{allocate_span, add_duration, complete, quotient}
use gostats.Scopes.Interface.{Scope}
use gostats.Handler.Responses.{
  pass, itoa, Response, Op, find_code, code_counter, write_code, write_body, write_header, write,
  step, respond,
}
use gostats.Handler.Responses.Codes.{HasCodes, new_counter_lem}
use gostats.Handler.Responses.Once.{sends, first_code, gained, respond-Responds}
use gostats.Handler.Serve.{HttpHandler, serve_http}

module _ {F : Type 0} (scope : Scope) where
  abbrev heaps : Response F → List ℕ × List Timer
  heaps r = other_heaps r.store

  abbrev found_heaps : ℕ × Response F → List ℕ × List Timer
  found_heaps x = other_heaps x.1.store

  code_counter-Keeps :
      (code : ℤ) (r : Response F) → Keeps found_heaps (heaps r) (code_counter scope code r)
  unfolding code_counter
  code_counter-Keeps code r =
      Keeps-option found_heaps (heaps r) (find_code code r.codes) _ _
        (rw (new_counter_lem scope (itoa code) r.store) (new_counter-other_heaps _ r.store))
        (λ i. refl)

  write_code-Keeps : (code : ℤ) (r : Response F) → Keeps heaps (heaps r) (write_code scope code r)
  unfolding write_code
  write_code-Keeps code r =
      let g = heaps r in
      let begun : Response F = record r { header_written = true } in
      Keeps-if heaps g r.header_written _ _ refl (
        Keeps-chain found_heaps heaps g (code_counter scope code begun) _
          (code_counter-Keeps code begun)
          (λ found same.
            Keeps-chain other_heaps heaps g (inc found.0 found.1.store) _
              (subst (λ x. Keeps other_heaps x (inc found.0 found.1.store)) same
                (inc-Keeps found.0 found.1.store))
              (λ s kept. kept)))

  write_body-Keeps : (b : Bytes) (r : Response F) → Keeps heaps (heaps r) (write_body scope b r)
  unfolding write_body
  write_body-Keeps b r =
      Keeps-chain heaps heaps (heaps r)
        (if r.header_written then ret r else write_code scope (ℤ.pos 200) r) _
        (Keeps-if heaps (heaps r) r.header_written _ _ refl (write_code-Keeps (ℤ.pos 200) r))
        (λ r1 kept. kept)

  step-Keeps : (op : Op) (r : Response F) → Keeps heaps (heaps r) (step scope op r)
  unfolding step
  step-Keeps (write_header code) r = write_code-Keeps code r
  step-Keeps (write b) r = write_body-Keeps b r
  step-Keeps (pass p) r = refl

  respond-Keeps : (ops : List Op) (r : Response F) → Keeps heaps (heaps r) (respond scope ops r)
  unfolding respond
  respond-Keeps [] r = refl
  respond-Keeps (op ∷ ops) r =
      Keeps-chain heaps heaps (heaps r) (step scope op r) _ (step-Keeps op r)
        (λ r1 kept. subst (λ x. Keeps heaps x (respond scope ops r1)) kept (respond-Keeps ops r1))

bind_to : {A B : Type 0} (r : Run A) (a : A) (f : A → Run B) → r ≡ ret a → (r >>= f) ≡ f a
bind_to r a f e = ap (λ x. x >>= f) e

-- A duration goes to the sink in the unit of the timer.
add_duration_lem :
    {F : Type 0} (float : ℤ → F) (i : ℕ) (d : ℤ) (s : Store F) (t : Timer)
    → get_elem? s.timer_heap i ≡ some t
    → add_duration float i d s
      ≡ ret (record s {
        timer_heap = set s.timer_heap i (record t { active = true });
        calls = s.calls ++ Call.flush_timer t.name (float (quotient d t.base)) ∷ [];
      })
unfolding add_duration add_timer_value
add_duration_lem float i d s t e = rw (e, add_duration) (rw (e, add_timer_value) refl)

module _ {F : Type 0} (float : ℤ → F) (labels : List Bytes) where
  -- A request, whatever calls its handler makes on its response writer, where the store is valid, the codes'
  -- counters are registered and the handler's timer is there: it ends. The first call of Write or WriteHeader
  -- decides the code, 200 or that of WriteHeader: there the wrapped writer receives a header with it, and no
  -- other header; it receives the bodies and the other calls in their order; and the counter of the code counts
  -- one more in uint64, and no other name's. Where there is no such call nothing is counted. The store's sink
  -- receives one call, the timer's, with the time that the request took in the timer's unit.
  pub serve_http-CountsAndTimes :
      (h : HttpHandler) (now elapsed : ℤ) (ops : List Op) (s : Store F) (t : Timer)
      → IsValid labels s
      → HasCodes h.scope labels h.codes
      → get_elem? s.timer_heap h.timer ≡ some t
      → (labels' : List Bytes) × (h' : HttpHandler) × (r' : Response F) × (serve_http float h now
            elapsed ops s
          ≡ ret (h', r'))
        × (r'.sent ≡ sends ops)
        × (r'.store.calls
            ≡ s.calls ++ Call.flush_timer t.name (float (quotient elapsed t.base)) ∷ [])
        × ((n : Bytes)
            → total labels' n r'.store % u64
              ≡ (total labels n s + gained h.scope (first_code ops) n) % u64)
  unfolding serve_http complete allocate_span
  serve_http-CountsAndTimes h now elapsed ops s t v codes there =
      let r0 : Response F = record {
        header_written = false;
        codes = h.codes;
        store = s;
        sent = [];
      } in
      let (labels1, r1, e1, v1, h1, sent1, calls1, more) =
        respond-Responds h.scope labels ops r0 refl v codes in
      let kept =
        Keeps-ret (heaps h.scope) (other_heaps s) (respond h.scope ops r0) r1 e1
          (respond-Keeps h.scope ops r0) in
      let there1 : get_elem? r1.store.timer_heap h.timer ≡ some t =
        ap (λ (x : List ℕ × List Timer). get_elem? x.1 h.timer) kept ∙ there in
      let call : List (Call F) = Call.flush_timer t.name (float (quotient elapsed t.base)) ∷ [] in
      let s2 : Store F = record r1.store {
        timer_heap = set r1.store.timer_heap h.timer (record t { active = true });
        calls = r1.store.calls ++ call;
      } in
      let timed = add_duration_lem float h.timer elapsed r1.store t there1 in
      (
        labels1,
        record h { codes = r1.codes },
        record r1 { store = s2 },
        bind_to (respond h.scope ops r0) r1 _ e1
            ∙ bind_to (add_duration float h.timer elapsed r1.store >>= λ s'. ret (elapsed, s'))
                (elapsed, s2) _
                (bind_to (add_duration float h.timer elapsed r1.store) s2 (λ s'. ret (elapsed, s'))
                  timed),
        sent1,
        ap (λ (c : List (Call F)). c ++ call) calls1,
        λ n.
            let counted = more n in
            let none_counted = flushed-append n r1.store.calls call in
            omega (arith, counted, none_counted),
      )
