-- ===== src/NetSink/Run/Stream.antt =====
-- The bytes on their way from the writers of net_sink.go to the connection.
pub mod Rounds
pub mod Dials
use gostats.Prelude.{
  ℕ, zero, suc, ◌+◌, ◌%◌, ◌≤◌, ◌<◌, ◌≡◌, refl, sym, ◌∙◌, ap, subst, ◌==◌, ltb, le→ltb, lt→ltb, Bool,
  true, false, not, Option, none, some, Option-cases, List, [], ◌∷◌, ◌++◌, append-nil, append_assoc,
  if◌then◌else◌, if_true, if_false, length, take, drop, Bool-cases, ◌⊎◌, inl, inr, arith,
}
use gostats.Bytes.{Bytes}
use gostats.Store.{u64}
use gostats.NetSink.{
  NetSink, log_on_every, bufio_flush, flush_buffer, handle_flush_error, handle_flush_error_size,
}
use gostats.NetSink.Writer.{concat, concat-append, bufio_flush_cases}
use gostats.NetSink.Run.{
  uncons-nil, uncons-cons, bind_some, Outcome, written, broken, Ready, tick, request, buffer, Loop,
  retry_capacity, write_to_conn, put_retry, answer, write_or_retry, write_pending, serve, reconnect,
  drain_flush_queue, drain_loop, retry_first, connected_round, round,
}

-- What was delivered and what is still to go, in order.
abbrev pub stream : Loop → Bytes
stream s = s.delivered ++ (concat s.retryc ++ (concat s.sink.outc ++ s.sink.buffered))

pub List-cases :
    {A : Type 0} (xs : List A) → (xs ≡ []) ⊎ ((x : A) × (rest : List A) × (xs ≡ x ∷ rest))
List-cases [] = inl refl
List-cases (x ∷ xs) = inr (x, xs, refl)

pub take-drop : (n : ℕ) (xs : Bytes) → take n xs ++ drop n xs ≡ xs
take-drop zero xs = refl
take-drop (suc n) [] = refl
take-drop (suc n) (x ∷ xs) = ap (◌∷◌ x) (take-drop n xs)

-- What a write leaves of a buffer is what it did not deliver.
split_back :
    (n : ℕ) (d b r x : Bytes) → d ++ take n b ++ (drop n b ++ [] ++ (r ++ x)) ≡ d ++ (b ++ r ++ x)
split_back n d b r x =
    let parts : d ++ take n b ++ (drop n b ++ [] ++ (r ++ x))
        ≡ d ++ ((take n b ++ drop n b) ++ r ++ x) =
      simp (append_assoc, append-nil) in
    parts ∙ ap (λ y. d ++ (y ++ r ++ x)) (take-drop n b)

-- From one state to another: the same bytes in the same order, and at most one buffer to retry, with the
-- connection gone; the rest of the sink and the requests are as they were.
pub record Carries (s t : Loop) : Type 0 where
  pub same : stream t ≡ stream s
  pub one : length t.retryc ≤ 1
  pub gone : t.connected ≡ true → t.retryc ≡ []
  pub buffered : t.sink.buffered ≡ s.sink.buffered
  pub dropped : t.sink.dropped_bytes ≡ s.sink.dropped_bytes
  pub sound : t.sink.failed ≡ s.sink.failed
  pub queue : t.do_flush ≡ s.do_flush
  pub answers : t.answered ≡ s.answered

-- The first buffer of the channel is written, or goes to the empty `retryc`.
pub write_or_retry-Carries :
    (o : Outcome) (buf : Bytes) (rest : List Bytes) (s : Loop)
    → s.sink.outc ≡ buf ∷ rest
    → s.retryc ≡ []
    → (t : Loop) × (write_or_retry o buf (record s { sink = record s.sink { outc = rest } })
        ≡ some t)
      × Carries s t
      × (t.sink.outc ≡ rest)
unfolding write_or_retry write_to_conn put_retry
write_or_retry-Carries written buf rest s out none_left = (
  record s { sink = record s.sink { outc = rest }; delivered = s.delivered ++ buf },
  refl,
  record {
    same = rw (out, none_left) (simp append_assoc);
    one = rw none_left (omega arith);
    gone = λ h. none_left;
    buffered = refl;
    dropped = refl;
    sound = refl;
    queue = refl;
    answers = refl;
  },
  refl,
)
write_or_retry-Carries (broken n) buf rest s out none_left = (
  record s {
    sink = record s.sink { outc = rest };
    delivered = s.delivered ++ take n buf;
    connected = false;
    retryc = drop n buf ∷ [];
  },
  rw none_left refl,
  record {
    same = rw (out, none_left) (split_back n s.delivered buf (concat rest) s.sink.buffered);
    one = omega arith;
    gone = λ h. absurd (cc);
    buffered = refl;
    dropped = refl;
    sound = refl;
    queue = refl;
    answers = refl;
  },
  refl,
)

Carries-refl : (s : Loop) → length s.retryc ≤ 1 → (s.connected ≡ true → s.retryc ≡ []) → Carries s s
Carries-refl s one gone = record {
  same = refl;
  one = one;
  gone = gone;
  buffered = refl;
  dropped = refl;
  sound = refl;
  queue = refl;
  answers = refl;
}

Carries-trans : (s t u : Loop) → Carries s t → Carries t u → Carries s u
Carries-trans s t u a b = record {
  same = b.same ∙ a.same;
  one = b.one;
  gone = b.gone;
  buffered = b.buffered ∙ a.buffered;
  dropped = b.dropped ∙ a.dropped;
  sound = b.sound ∙ a.sound;
  queue = b.queue ∙ a.queue;
  answers = b.answers ∙ a.answers;
}

pub write_pending-Carries :
    (outcome : ℕ → Outcome) (n : ℕ) (s : Loop)
    → n ≤ length s.sink.outc
    → length s.retryc ≤ 1
    → (s.connected ≡ true → s.retryc ≡ [])
    → (t : Loop) × (write_pending outcome n s ≡ some t) × Carries s t
unfolding write_pending
write_pending-Carries outcome zero s below one gone = (s, refl, Carries-refl s one gone)
write_pending-Carries outcome (suc n) s below one gone = elim (Bool-cases s.connected) [
  | inr e ↦ (s, if_false s.connected _ _ e, Carries-refl s one gone)
  | inl e ↦ elim (List-cases s.sink.outc) [
    | inl none_left ↦ absurd (ground (arith, below, none_left))
    | inr (buf, rest, out) ↦
        let (t, written_t, kept, left) =
          write_or_retry-Carries (outcome (suc n)) buf rest s out (gone e) in
        let enough : n ≤ length t.sink.outc =
          let there = ap length out in let here = ap length left in omega (arith, there, here) in
        let (u, rest_u, later) = write_pending-Carries outcome n t enough kept.one kept.gone in
        (
          u,
          if_true s.connected _ _ e
              ∙ uncons-cons s.sink.outc _ _ buf rest out
              ∙ bind_some _ _ t written_t
              ∙ rest_u,
          Carries-trans s t u kept later,
        )
  ]
]
