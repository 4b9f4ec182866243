-- ===== src/Handler/Responses/Once.antt =====
-- The response writer of stat_handler.go through a sequence of calls.
use gostats.Prelude.{
  ℕ, ◌+◌, ◌%◌, ◌≡◌, refl, sym, ◌∙◌, ap, true, false, Option, none, some, arith, List, [], ◌∷◌, ◌++◌,
  append-nil, append_assoc, if◌then◌else◌, if_true, if_false, Run, ret, ◌>>=◌,
}
use gostats.Bytes.{Bytes, beq}
use gostats.Settings.{ℤ}
use gostats.Store.{u64}
use gostats.Store.Counters.{inc}
use gostats.Store.Labels.{IsValid}
use gostats.Store.Rejoin.{total}
use gostats.Store.Writes.{add-Counts}
use gostats.Scopes.Interface.{Scope}
use gostats.Handler.Responses.{
  passed, pass, Sent, header, body, Response, Op, write_header, write, write_code, write_body,
  respond,
}
use gostats.Handler.Responses.Codes.{code_name, HasCodes, code_counter-Finds}

-- What the wrapped writer receives of some calls after the header, and from the start.
abbrev pub bodies : List Op → List Sent
bodies [] = []
bodies (write_header c ∷ ops) = bodies ops
bodies (write b ∷ ops) = body b ∷ bodies ops
bodies (pass p ∷ ops) = passed p ∷ bodies ops

abbrev pub sends : List Op → List Sent
sends [] = []
sends (write_header c ∷ ops) = header c ∷ bodies ops
sends (write b ∷ ops) = header (ℤ.pos 200) ∷ body b ∷ bodies ops
sends (pass p ∷ ops) = passed p ∷ sends ops

-- The code of the first call of `WriteHeader` or `Write`.
abbrev pub first_code : List Op → Option ℤ
first_code [] = none
first_code (write_header c ∷ ops) = some c
first_code (write b ∷ ops) = some (ℤ.pos 200)
first_code (pass p ∷ ops) = first_code ops

-- What a code adds to the count of a name.
abbrev pub gained : Scope → Option ℤ → Bytes → ℕ
gained scope none n = 0
gained scope (some c) n = if beq (code_name scope c) n then 1 else 0

module _ {F : Type 0} (scope : Scope) where
  -- The run ends in a valid state where `more` was sent to the wrapped writer, nothing to the sink, and the
  -- code's counter has counted one more, in `uint64`, and no other.
  abbrev pub CountsCode : List Bytes → ℤ → List Sent → Response F → Run (Response F) → Type 0
  CountsCode labels code more r run =
      (labels' : List Bytes) × (r' : Response F) × (run ≡ ret r')
      × IsValid labels' r'.store
      × HasCodes scope labels' r'.codes
      × (r'.header_written ≡ true)
      × (r'.sent ≡ r.sent ++ more)
      × (r'.store.calls ≡ r.store.calls)
      × ((n : Bytes)
          → total labels' n r'.store % u64
            ≡ (total labels n r.store + (if beq (code_name scope code) n then 1 else 0)) % u64)

  write_code-CountsCode :
      (labels : List Bytes) (code : ℤ) (r : Response F)
      → r.header_written ≡ false
      → IsValid labels r.store
      → HasCodes scope labels r.codes
      → CountsCode labels code (header code ∷ []) r (write_code scope code r)
  unfolding write_code inc
  write_code-CountsCode labels code r fresh v h =
      let name = code_name scope code in
      let started : Response F = record r { header_written = true } in
      let (labels1, i, r1, e1, v1, h1, named, calls1, sent1, written, same) =
        code_counter-Finds scope labels code started v h in
      let (s2, e2, v2, calls2, more) = add-Counts labels1 i name 1 r1.store v1 named in
      rw fresh (
        rw e1 (
          rw e2 (
            labels1,
            record r1 { store = s2; sent = r1.sent ++ header code ∷ [] },
            refl,
            v2,
            h1,
            written,
            ap (λ (s : List Sent). s ++ header code ∷ []) sent1,
            calls2 ∙ calls1,
            λ n. more n ∙ ap (λ (t : ℕ). (t + (if beq name n then 1 else 0)) % u64) (same n),
          )))

  bind_step :
      (run : Run (Response F)) (r : Response F) (f : Response F → Run (Response F))
      → run ≡ ret r
      → (run >>= f) ≡ f r
  bind_step run r f e = ap (λ (x : Run (Response F)). x >>= f) e

  write_code-written :
      (code : ℤ) (r : Response F) → r.header_written ≡ true → write_code scope code r ≡ ret r
  unfolding write_code
  write_code-written code r w = if_true r.header_written _ _ w

  write_body-written :
      (b : Bytes) (r : Response F)
      → r.header_written ≡ true
      → write_body scope b r ≡ ret (record r { sent = r.sent ++ body b ∷ [] })
  unfolding write_body
  write_body-written b r w =
      ap (λ (x : Run (Response F)). x >>= λ r1. ret (record r1 { sent = r1.sent ++ body b ∷ [] }))
        (if_true r.header_written _ _ w)

  write_body-fresh :
      (b : Bytes) (r r1 : Response F)
      → r.header_written ≡ false
      → write_code scope (ℤ.pos 200) r ≡ ret r1
      → write_body scope b r ≡ ret (record r1 { sent = r1.sent ++ body b ∷ [] })
  unfolding write_body
  write_body-fresh b r r1 fresh e =
      ap (λ (x : Run (Response F)). x >>= λ r1. ret (record r1 { sent = r1.sent ++ body b ∷ [] }))
        (if_false r.header_written _ _ fresh ∙ e)

  -- After the header, calls only pass the bodies on.
  respond-written :
      (ops : List Op) (r : Response F)
      → r.header_written ≡ true
      → respond scope ops r ≡ ret (record r { sent = r.sent ++ bodies ops })
  unfolding respond
  respond-written [] r w =
      ap (λ (s : List Sent). ret (record r { sent = s })) (sym (append-nil r.sent))
  respond-written (write_header c ∷ ops) r w =
      bind_step (write_code scope c r) r (respond scope ops) (write_code-written c r w)
      ∙ respond-written ops r w
  respond-written (write b ∷ ops) r w =
      let r1 : Response F = record r { sent = r.sent ++ body b ∷ [] } in
      bind_step (write_body scope b r) r1 (respond scope ops) (write_body-written b r w)
      ∙ respond-written ops r1 w
      ∙ ap (λ (s : List Sent). ret (record r { sent = s }))
          (append_assoc r.sent (body b ∷ []) (bodies ops))
  respond-written (pass p ∷ ops) r w =
      let r1 : Response F = record r { sent = r.sent ++ passed p ∷ [] } in
      respond-written ops r1 w
      ∙ ap (λ (s : List Sent). ret (record r { sent = s }))
          (append_assoc r.sent (passed p ∷ []) (bodies ops))

  -- The run ends in a valid state where `more` was sent to the wrapped writer, nothing to the sink, and the
  -- counter of the code, if there is one, has counted one more, in `uint64`, and no other.
  abbrev pub Responds : List Bytes → Option ℤ → List Sent → Response F → Run (Response F) → Type 0
  Responds labels code more r run =
      (labels' : List Bytes) × (r' : Response F) × (run ≡ ret r')
      × IsValid labels' r'.store
      × HasCodes scope labels' r'.codes
      × (r'.sent ≡ r.sent ++ more)
      × (r'.store.calls ≡ r.store.calls)
      × ((n : Bytes)
          → total labels' n r'.store % u64 ≡ (total labels n r.store + gained scope code n) % u64)

  -- Whatever calls a handler makes on a response writer that has written no header.
  pub respond-Responds :
      (labels : List Bytes) (ops : List Op) (r : Response F)
      → r.header_written ≡ false
      → IsValid labels r.store
      → HasCodes scope labels r.codes
      → Responds labels (first_code ops) (sends ops) r (respond scope ops r)
  unfolding respond
  respond-Responds labels [] r fresh v h =
      (labels, r, refl, v, h, sym (append-nil r.sent), refl, λ n. omega arith)
  respond-Responds labels (pass p ∷ ops) r fresh v h =
      let r1 : Response F = record r { sent = r.sent ++ passed p ∷ [] } in
      let (labels2, r2, e2, v2, h2, sent2, calls2, more) =
        respond-Responds labels ops r1 fresh v h in
      (
        labels2,
        r2,
        e2,
        v2,
        h2,
        sent2 ∙ append_assoc r.sent (passed p ∷ []) (sends ops),
        calls2,
        more,
      )
  respond-Responds labels (write_header code ∷ ops) r fresh v h =
      let (labels1, r1, e1, v1, h1, written, sent1, calls1, more) =
        write_code-CountsCode labels code r fresh v h in
      (
        labels1,
        record r1 { sent = r1.sent ++ bodies ops },
        bind_step (write_code scope code r) r1 (respond scope ops) e1
            ∙ respond-written ops r1 written,
        v1,
        h1,
        ap (λ (s : List Sent). s ++ bodies ops) sent1
            ∙ append_assoc r.sent (header code ∷ []) (bodies ops),
        calls1,
        more,
      )
  respond-Responds labels (write b ∷ ops) r fresh v h =
      let ok = ℤ.pos 200 in
      let (labels1, r1, e1, v1, h1, written, sent1, calls1, more) =
        write_code-CountsCode labels ok r fresh v h in
      let r2 : Response F = record r1 { sent = r1.sent ++ body b ∷ [] } in
      (
        labels1,
        record r2 { sent = r2.sent ++ bodies ops },
        bind_step (write_body scope b r) r2 (respond scope ops) (write_body-fresh b r r1 fresh e1)
            ∙ respond-written ops r2 written,
        v1,
        h1,
        ap (λ (s : List Sent). (s ++ body b ∷ []) ++ bodies ops) sent1
            ∙ append_assoc (r.sent ++ header ok ∷ []) (body b ∷ []) (bodies ops)
            ∙ append_assoc r.sent (header ok ∷ []) (body b ∷ bodies ops),
        calls1,
        more,
      )
