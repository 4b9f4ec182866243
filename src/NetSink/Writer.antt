-- ===== src/NetSink/Writer.antt =====
-- How a write and a flush of the buffered writer of net_sink.go go.
use gostats.Prelude.{
  ℕ, zero, suc, ◌+◌, ◌%◌, ◌≤◌, ◌≡◌, refl, sym, ◌∙◌, ap, ◌==◌, ==_iff, ltb, Bool, true, false, not,
  ◌&&◌, List, [], ◌∷◌, ◌++◌, append-nil, append_assoc, arith, le→ltb, if◌then◌else◌, if_true,
  if_false, ◌⊎◌, Bool-cases, inl, inr, length,
}
use gostats.Bytes.{Bytes}
use gostats.Store.{u64}
use gostats.NetSink.{
  NetSink, available, log_on_every, send, bufio_flush, write_loop, bufio_write,
  handle_flush_error_size, handle_flush_error, flush_buffer, make_room,
}

abbrev pub concat : List Bytes → Bytes
concat [] = []
concat (l ∷ ls) = l ++ concat ls

pub concat-append : (ls ms : List Bytes) → concat (ls ++ ms) ≡ concat ls ++ concat ms
concat-append [] ms = refl
concat-append (l ∷ ls) ms =
    ap (◌++◌ l) (concat-append ls ms) ∙ sym (append_assoc l (concat ls) (concat ms))

pub length-zero : (b : Bytes) → length b ≡ 0 → b ≡ []
length-zero [] e = refl
length-zero (x ∷ b) e = absurd (omega arith)

-- The three ways a flush of the writer goes: there is nothing, the channel takes the buffer, it is full.
pub bufio_flush_cases :
    (s : NetSink)
    → s.failed ≡ false
    → ((s.buffered ≡ []) × (bufio_flush s ≡ (true, s)))
      ⊎ (bufio_flush s ≡ (true, record s { outc = s.outc ++ s.buffered ∷ []; buffered = [] }))
      ⊎ ((s.capacity ≤ length s.outc) × (bufio_flush s ≡ (false, record s { failed = true })))
unfolding bufio_flush send
bufio_flush_cases s h = elim (Bool-cases (length s.buffered == 0)) [
  | inl e ↦ inl (
    length-zero s.buffered ((==_iff (length s.buffered) 0).0 e),
    if_false s.failed _ _ h ∙ if_true (length s.buffered == 0) _ _ e,
  )
  | inr e ↦ elim (Bool-cases (ltb (length s.outc) s.capacity)) [
    | inl g ↦
        inr (inl (if_false s.failed _ _ h ∙ if_false (length s.buffered == 0) _ _ e ∙ rw g refl))
    | inr g ↦ inr (
        inr (
          ground (arith, g),
          if_false s.failed _ _ h ∙ if_false (length s.buffered == 0) _ _ e ∙ rw g refl,
        ))
  ]
]

pub write_loop_stop :
    (fuel : ℕ) (p : Bytes) (s : NetSink)
    → (ltb (available s) (length p) && not s.failed) ≡ false
    → write_loop fuel p s ≡ (p, s)
unfolding write_loop
write_loop_stop zero p s e = refl
write_loop_stop (suc fuel) p s e = rw (e, write_loop) refl

-- A writer has room for a text, or it is empty.
abbrev pub HasRoom : Bytes → NetSink → Type 0
HasRoom b s = (length b ≤ available s) ⊎ (s.buffered ≡ [])

flush_buffer-empties : (s : NetSink) → s.failed ≡ false → (flush_buffer s).1.buffered ≡ []
unfolding flush_buffer handle_flush_error handle_flush_error_size
flush_buffer-empties s h = elim (bufio_flush_cases s h) [
  | inl (empty, e) ↦ rw e empty
  | inr (inl e) ↦ rw e refl
  | inr (inr (full, e)) ↦
      rw e
        (elim (Bool-cases (
          ltb (s.dropped_bytes % log_on_every)
            ((s.dropped_bytes + length s.buffered) % u64 % log_on_every))) [
              | inl g ↦ rw g refl
              | inr g ↦ rw g refl
            ])
]

pub make_room-fits : (b : Bytes) (s : NetSink) → s.failed ≡ false → HasRoom b (make_room b s)
unfolding make_room
make_room-fits b s h = elim (Bool-cases (ltb (available s) (length b))) [
  | inl e ↦ rw e (inr (flush_buffer-empties s h))
  | inr e ↦ rw e (inl (ground arith))
]

write_loop_past :
    (fuel : ℕ) (p : Bytes) (s : NetSink)
    → (ltb (available s) (length p) && not s.failed) ≡ true
    → s.buffered ≡ []
    → write_loop (suc fuel) p s ≡ (
        if (send p s).0
        then write_loop fuel [] (send p s).1
        else write_loop fuel p (record ((send p s).1) { failed = true }))
unfolding write_loop
write_loop_past fuel p s e empty =
    let none : (length s.buffered == 0) ≡ true =
      (==_iff (length s.buffered) 0).1 (ap length empty) in
    elim (Bool-cases (send p s).0) [
      | inl g ↦ rw (e, write_loop) (rw none (rw g refl))
      | inr g ↦ rw (e, write_loop) (rw none (rw g refl))
    ]

pub bufio_write_lem :
    (b rest : Bytes) (s s' : NetSink)
    → write_loop 3 b s ≡ (rest, s')
    → bufio_write b s
      ≡ (if s'.failed then (false, s') else (true, record s' { buffered = s'.buffered ++ rest }))
unfolding bufio_write
bufio_write_lem b rest s s' e =
    ap
      (λ (x : Bytes × NetSink).
        if x.1.failed
        then (false, x.1)
        else (true, record (x.1) { buffered = x.1.buffered ++ x.0 }))
      e

and_false : (b : Bool) → (b && false) ≡ false
and_false true = refl
and_false false = refl

pub and_first : (b c : Bool) → b ≡ false → (b && c) ≡ false
and_first b c e = ground arith

send_room :
    (p : Bytes) (s : NetSink)
    → ltb (length s.outc) s.capacity ≡ true
    → send p s ≡ (true, record s { outc = s.outc ++ p ∷ [] })
unfolding send
send_room p s e = if_true (ltb (length s.outc) s.capacity) _ _ e

send_full :
    (p : Bytes) (s : NetSink) → ltb (length s.outc) s.capacity ≡ false → send p s ≡ (false, s)
unfolding send
send_full p s e = if_false (ltb (length s.outc) s.capacity) _ _ e

-- A write to a writer with room: the buffer or the channel takes the text, or the channel is full.
pub bufio_write_cases :
    (b : Bytes) (s : NetSink)
    → s.failed ≡ false
    → HasRoom b s
    → (bufio_write b s ≡ (true, record s { buffered = s.buffered ++ b }))
      ⊎ (bufio_write b s ≡ (true, record s { outc = s.outc ++ b ∷ []; buffered = [] }))
      ⊎ (bufio_write b s ≡ (false, record s { failed = true }))
bufio_write_cases b s h room = elim (Bool-cases (ltb (available s) (length b) && not s.failed)) [
  | inr e ↦ inl (bufio_write_lem b b s s (write_loop_stop 3 b s e) ∙ if_false s.failed _ _ h)
  | inl e ↦
      let empty : s.buffered ≡ [] = elim room [
        | inl fits ↦ absurd (ground (arith, fits, e))
        | inr empty ↦ empty
      ] in
      let past = write_loop_past 2 b s e empty in
      elim (Bool-cases (ltb (length s.outc) s.capacity)) [
        | inl g ↦
            let s1 : NetSink = record s { outc = s.outc ++ b ∷ [] } in
            let stop = write_loop_stop 2 [] s1 (
              and_first (ltb (available s1) 0) (not s1.failed)
                (le→ltb (available s1) 0 (omega arith))) in
            inr (
              inl (
                bufio_write_lem b [] s s1 (
                  past
                  ∙ ap
                      (λ (x : Bool × NetSink).
                        if x.0
                        then write_loop 2 [] x.1
                        else write_loop 2 b (record (x.1) { failed = true }))
                      (send_room b s g)
                  ∙ stop)
                ∙ if_false s.failed _ _ h
                ∙ ap (λ (k : Bytes). (true, record s1 { buffered = k }))
                    (append-nil s.buffered ∙ empty)))
        | inr g ↦
            let s1 : NetSink = record s { failed = true } in
            let stop = write_loop_stop 2 b s1 (and_false (ltb (available s1) (length b))) in
            inr (
              inr (
                bufio_write_lem b b s s1 (
                  past
                  ∙ ap
                      (λ (x : Bool × NetSink).
                        if x.0
                        then write_loop 2 [] x.1
                        else write_loop 2 b (record (x.1) { failed = true }))
                      (send_full b s g)
                  ∙ stop)))
      ]
]
