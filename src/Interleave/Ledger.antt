-- ===== src/Interleave/Ledger.antt =====
-- What each thread and each counter owes under a name, while the threads run.
pub mod Moves
pub mod Ranges
use gostats.Prelude.{
  ℕ, zero, suc, ◌+◌, ◌-◌, ◌%◌, ◌<◌, ◌≡◌, refl, sym, ◌∙◌, ap, subst, ◌==◌, ==_iff, ltb, Bool, true,
  false, Bool-cases, Option-cases, Option, none, some, List, [], ◌∷◌, if◌then◌else◌, ◌⊎◌, inl, inr,
  arith,
}
use gostats.Bytes.{Bytes, beq, beq→eq, beq_refl}
use gostats.Store.Counters.{must_rejoin, pending, add_value}
use gostats.Store.Rejoin.{pending-add_value}
use gostats.Store.{u32, u64, Counter}
use gostats.Interleave.{
  Then, forward, visit, prune, Pc, idle, adding, storing, forwarding, added, joining, reading,
  read_value, swapping, latched, resetting, clearing, counting, deleting, marking, renewing, Memory,
  update, set_entry, put, send, ask, minus, move,
}
use gostats.Interleave.Family.{sum_below, sum_below-change}
use gostats.Interleave.Places.{IsBelow}

-- What counts under the name `k`, of `d` under the name `n`.
abbrev pub counted : Bytes → Bytes → ℕ → ℕ
counted k n d = if beq n k then d else 0

abbrev pub sum_of : Bytes → List (Bytes × ℕ) → ℕ
sum_of k [] = 0
sum_of k ((n, d) ∷ rest) = counted k n d + sum_of k rest

-- A total changes as one of its members does.
balance_numbers :
    (sent total total' old new t t' a a' : ℕ)
    → total' + old ≡ total + new
    → (new + t' + a) % u64 ≡ (old + t + a') % u64
    → (sent + total' + t' + a) % u64 ≡ (sent + total + t + a') % u64
balance_numbers sent total total' old new t t' a a' trade h = omega arith

-- The pending count grows by `d`, for the names where the counter counts.
pub gain :
    (b : Bool) (old d new a : ℕ)
    → new ≡ (old + d) % u64
    → ((if b then new else 0) + 0 + a) % u64
      ≡ ((if b then old else 0) + 0 + ((if b then d else 0) + a)) % u64
gain true old d new a h = omega arith
gain false old d new a h = omega arith

pub gain_forwarded :
    (b : Bool) (old d new a : ℕ)
    → new ≡ (old + d) % u64
    → ((if b then new else 0) + 0 + a) % u64
      ≡ ((if b then old else 0) + (if b then d else 0) + a) % u64
gain_forwarded true old d new a h = omega arith
gain_forwarded false old d new a h = refl

pub pending_stored :
    (v c l : ℕ)
    → v < u64
    → c < u64
    → l < u64
    → (v + u64 - l) % u64 ≡ ((c + u64 - l) % u64 + minus v c) % u64
pending_stored v c l hv hc hl = omega arith

-- A latch takes out what it returns.
pub taken :
    (b : Bool) (c v l last a : ℕ)
    → last ≡ l
    → c < u64
    → v < u64
    → last < u64
    → ((if b then (c + u64 - v) % u64 else 0) + (if b then minus v l else 0) + a) % u64
      ≡ ((if b then (c + u64 - last) % u64 else 0) + 0 + a) % u64
taken true c v l last a e hc hv hl = omega arith
taken false c v l last a e hc hv hl = refl

abbrev pub HeapFits : (ℕ → Counter) → Type 0
HeapFits heap = (i : ℕ) → ((heap i).current_value < u64) × ((heap i).last_sent_value < u64)

module _ (name : ℕ → Bytes) where
  abbrev pub OfName : ℕ → Then → Type 0
  OfName i (forward j) = name j ≡ name i
  OfName i visit = Unit
  OfName i prune = Unit

  -- The locals of a thread are numbers of 64 bits, and it forwards to a counter of the same name.
  abbrev pub Fits : Pc → Type 0
  Fits (storing i v) = v < u64
  Fits (reading i k) = OfName i k
  Fits (read_value i v k) = (v < u64) × OfName i k
  Fits (swapping i v l k) = (v < u64) × OfName i k
  Fits (latched i d k) = OfName i k
  Fits p = Unit

  -- What a thread has taken out of a counter and has neither sent nor added to another.
  abbrev pub transit : Bytes → Pc → ℕ
  transit k (forwarding j d) = counted k (name j) d
  transit k (latched i d next) = counted k (name i) d
  transit k p = 0

  -- What the counters owe.
  abbrev pub owing : Bytes → Memory → ℕ
  owing k m = sum_below (λ i. counted k (name i) (pending (m.heap i))) m.count

  -- A write trades what the counter owed for what it owes.
  owing-put :
      (k : Bytes) (i : ℕ) (c : Counter) (m : Memory)
      → i < m.count
      → owing k (put i c m) + counted k (name i) (pending (m.heap i))
        ≡ owing k m + counted k (name i) (pending c)
  owing-put k i c m below =
      let same : (i == i) ≡ true = ground arith in
      let written : update m.heap i c i ≡ c = rw same refl in
      let changed =
        sum_below-change (λ j. counted k (name j) (pending (m.heap j)))
          (λ j. counted k (name j) (pending (update m.heap i c j))) i m.count below
          (λ j e. rw e refl) in
      changed ∙ ap (λ x. owing k m + counted k (name i) (pending x)) written

  module _ (k : Bytes) (m : Memory) where
    -- What was sent, is owed or is on its way under a name changes by what is asked, in 64 bits.
    abbrev pub Balances : Pc → Memory → Pc → Type 0
    Balances p m' p' =
        (sum_of k m'.sent + owing k m' + transit k p' + sum_of k m.asked) % u64
        ≡ (sum_of k m.sent + owing k m + transit k p + sum_of k m'.asked) % u64

    -- A write, by what it does at its counter.
    pub balance :
        (i : ℕ) (c : Counter) (sent t t' a a' : ℕ)
        → i < m.count
        → (counted k (name i) (pending c) + t' + a) % u64
          ≡ (counted k (name i) (pending (m.heap i)) + t + a') % u64
        → (sent + owing k (put i c m) + t' + a) % u64 ≡ (sent + owing k m + t + a') % u64
    balance i c sent t t' a a' below h =
        balance_numbers sent (owing k m) (owing k (put i c m))
          (counted k (name i) (pending (m.heap i))) (counted k (name i) (pending c)) t t' a a'
          (owing-put k i c m below) h

    pub even :
        (i : ℕ) (c : Counter) (sent a : ℕ)
        → i < m.count
        → pending c ≡ pending (m.heap i)
        → (sent + owing k (put i c m) + 0 + a) % u64 ≡ (sent + owing k m + 0 + a) % u64
    even i c sent a below same =
        balance i c sent 0 0 a a below (ap (λ x. (counted k (name i) x + 0 + a) % u64) same)
