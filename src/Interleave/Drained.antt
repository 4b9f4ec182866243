-- ===== src/Interleave/Drained.antt =====
-- What a last visit of `Flush` sends, where no thread is at work and nothing is pruned.
use gostats.Prelude.{
  ℕ, zero, suc, ◌+◌, ◌%◌, ◌<◌, ◌≡◌, refl, sym, ◌∙◌, ap, subst, ◌==◌, ==_iff, true, false,
  Bool-cases, some, if◌then◌else◌, inl, inr, arith,
}
use gostats.Bytes.{Bytes, beq, beq→eq}
use gostats.Store.{u64}
use gostats.Store.Counters.{pending}
use gostats.Interleave.{
  visit, Pc, idle, reading, read_value, swapping, latched, resetting, Memory, put, send, minus,
  move, System, Reach,
}
use gostats.Interleave.Family.{sum_below, sum_below-same, sum_below-change, sum_below-zero}
use gostats.Interleave.Invariant.{Inv-Reach}
use gostats.Interleave.Ledger.{counted, sum_of, HeapFits, transit, owing}
use gostats.Interleave.Conserve.{Ranged-Reach, no_lost_write}
use gostats.Interleave.Alone.{runs}
use gostats.Interleave.Unpruned.{unpruned-entry}

differ : (v l : ℕ) → (v == l) ≡ false → v < u64 → l < u64 → (minus v l == 0) ≡ false
differ v l e hv hl = elim (Bool-cases (minus v l == 0)) [
  | inl z ↦
      let same : minus v l ≡ 0 = (==_iff (minus v l) 0).0 z in
      let equal : v ≡ l = omega (arith, same, hv, hl) in absurd (ground (arith, equal, e))
  | inr z ↦ z
]

-- A family with one member that counts.
sum_below-one :
    (f : ℕ → ℕ) (i n : ℕ)
    → i < n
    → ((j : ℕ) → j < n → (i == j) ≡ false → f j ≡ 0)
    → sum_below f n ≡ f i
sum_below-one f i n below h =
    let single : ℕ → ℕ = λ j. if i == j then f i else 0 in
    let at : single i ≡ f i = (let same : (i == i) ≡ true = ground arith in rw same refl) in
    let swapped = sum_below-change (λ j. 0) single i n below (λ j e. rw e refl) in
    let same = sum_below-same single f n (λ j b. elim (Bool-cases (i == j)) [
      | inl e ↦ rw e (ap f (sym ((==_iff i j).0 e)))
      | inr e ↦ rw e (h j b e)
    ]) in
    let nothing = sum_below-zero n in omega (arith, at, swapped, same, nothing)

module _ (name : ℕ → Bytes) where
  runs-after :
      (n : ℕ) (m : Memory) (p : Pc) (m' : Memory) (p' : Pc) (out : Memory × Pc)
      → move name 0 m p ≡ (m', p')
      → runs name 0 n m' p' ≡ out
      → runs name 0 (suc n) m p ≡ out
  runs-after n m p m' p' out e h =
      subst (λ (x : Memory × Pc). runs name 0 n x.0 x.1 ≡ out) (sym e) h

  runs-idle : (n : ℕ) (m : Memory) → runs name 0 n m idle ≡ (m, idle)
  unfolding move
  runs-idle zero m = refl
  runs-idle (suc n) m = runs-idle n m

  -- A visit sends what is pending.
  visit-Sends :
      (m : Memory) (i : ℕ)
      → HeapFits m.heap
      → (out : Memory) × (runs name 0 21 m (reading i visit) ≡ (out, idle))
        × (out.asked ≡ m.asked)
        × ((k : Bytes)
            → sum_of k out.sent ≡ counted k (name i) (pending (m.heap i)) + sum_of k m.sent)
  unfolding move
  visit-Sends m i fits =
      let v = (m.heap i).current_value in
      let l = (m.heap i).last_sent_value in
      let hv : v < u64 = (fits i).0 in
      let hl : l < u64 = (fits i).1 in
      elim (Bool-cases (v == l)) [
        | inl e ↦
            let equal : v ≡ l = (==_iff v l).0 e in
            let nothing : pending (m.heap i) ≡ 0 = omega (arith, equal, hv, hl) in
            (
              m,
              runs-after 19 m (read_value i v visit) m (latched i 0 visit) (m, idle) (rw e refl)
                  (runs-idle 18 m),
              refl,
              λ k. rw nothing (ground arith),
            )
        | inr e ↦
            let d = minus v l in
            let some_sent : (d == 0) ≡ false = differ v l e hv hl in
            let same : (l == l) ≡ true = ground arith in
            let m1 = put i (record (m.heap i) { last_sent_value = v }) m in
            let m2 = send (name i) d m1 in
            let m3 = put i (record (m2.heap i) { idle_flushes = 0 }) m2 in
            let m4 = put i (record (m3.heap i) { detached = false }) m3 in
            (
              m4,
              runs-after 19 m (read_value i v visit) m (swapping i v l visit) (m4, idle) (rw e refl)
                  (runs-after 18 m (swapping i v l visit) m1 (latched i d visit) (m4, idle)
                    (rw same refl)
                    (runs-after 17 m1 (latched i d visit) m2 (resetting i) (m4, idle)
                      (rw some_sent refl) (runs-idle 15 m4))),
              refl,
              λ k. refl,
            )
      ]

  -- Where `pruneAfterFlushes` is 0, in every state that any number of writers and one Flush at a time reach,
  -- in which each of the threads has returned, and for a name that is in the map: a visit of Flush to its entry,
  -- while the others stand still, ends within 21 operations, and then the sink was sent under that name all
  -- that Add and Set were asked to count, in 64 bits.
  pub last_visit-Settles :
      (k : Bytes) (threads : ℕ) (s : System name 0) (i : ℕ)
      → Reach name 0 threads s
      → ((t : ℕ) → t < threads → s.pc t ≡ idle)
      → s.mem.entry k ≡ some i
      → (out : Memory) × (runs name 0 21 s.mem (reading i visit) ≡ (out, idle))
        × (out.asked ≡ s.mem.asked)
        × (sum_of k out.sent % u64 ≡ sum_of k s.mem.asked % u64)
  last_visit-Settles k threads s i r at_rest found =
      let own = (Inv-Reach name 0 threads s r).attached.entries k i found in
      let (out, ran, asked, sends) = visit-Sends s.mem i (Ranged-Reach name 0 threads s r).heap in
      let owed : owing name k s.mem ≡ counted k (name i) (pending (s.mem.heap i)) =
        sum_below-one (λ j. counted k (name j) (pending (s.mem.heap j))) i s.mem.count own.0
          (λ j below other. elim (Bool-cases (beq (name j) k)) [
            | inl e ↦
                let found' : s.mem.entry k ≡ some j =
                  subst (λ (x : Bytes). s.mem.entry x ≡ some j) (beq→eq (name j) k e)
                    (unpruned-entry name threads s r j below) in
                absurd (ground (arith, found, found', other))
            | inr e ↦ rw e refl
          ]) in
      let none_taken : sum_below (λ t. transit name k (s.pc t)) threads ≡ 0 =
        sum_below-same (λ t. 0) (λ t. transit name k (s.pc t)) threads
          (λ t below. ap (transit name k) (at_rest t below))
        ∙ sum_below-zero threads in
      let books = no_lost_write name 0 k threads s r in
      let all = sends k in (out, ran, asked, omega (arith, owed, none_taken, books, all))
