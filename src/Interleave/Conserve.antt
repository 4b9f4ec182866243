-- ===== src/Interleave/Conserve.antt =====
-- The books of every name in every state that the steps reach.
use gostats.Prelude.{ℕ, ◌+◌, ◌%◌, ◌<◌, ◌≡◌, refl, ap, ◌∙◌, ◌==◌, true, false, arith}
use gostats.Bytes.{Bytes}
use gostats.Store.{u64}
use gostats.Store.Counters.{pending}
use gostats.Store.Registry.{fresh_counter}
use gostats.Interleave.{
  Pc, idle, adding, storing, reading, visit, update, create, fresh, System, Step, run, call_add,
  call_set, visit_entry, create_counter, Reach, start, later,
}
use gostats.Interleave.Family.{sum_below, sum_below-same, sum_below-change, sum_below-zero}
use gostats.Interleave.Invariant.{Inv, Inv-Reach, each_update}
use gostats.Interleave.Ledger.{counted, sum_of, Fits, HeapFits, transit, owing}
use gostats.Interleave.Ledger.Moves.{move-Balances}
use gostats.Interleave.Ledger.Ranges.{HeapFits-update, HeapFits-move, Fits-move}

-- A thread moves, and the sum of all threads with it.
books_numbers :
    (sent sent' owed owed' all all' t t' a a' : ℕ)
    → all' + t ≡ all + t'
    → (sent' + owed' + t' + a) % u64 ≡ (sent + owed + t + a') % u64
    → (sent + owed + all) % u64 ≡ a % u64
    → (sent' + owed' + all') % u64 ≡ a' % u64
books_numbers sent sent' owed owed' all all' t t' a a' trade h b = omega arith

module _ (name : ℕ → Bytes) (limit : ℕ) where
  pub record Ranged (s : System name limit) : Type 0 where
    pub heap : HeapFits s.mem.heap
    pub places : (t : ℕ) → Fits name (s.pc t)

  fresh_fits :
      (i : ℕ)
      → ((fresh name limit i).current_value < u64) × ((fresh name limit i).last_sent_value < u64)
  unfolding fresh_counter
  fresh_fits i = (omega arith, omega arith)

  fresh_owes : (i : ℕ) → pending (fresh name limit i) ≡ 0
  unfolding fresh_counter
  fresh_owes i = refl

  Ranged-Step :
      (threads : ℕ) (s t : System name limit)
      → Step name limit threads s t
      → Inv name limit s
      → Ranged s
      → Ranged t
  Ranged-Step threads s _ (run t below) v r = record {
    heap = HeapFits-move name limit s.mem r.heap (s.pc t) (r.places t);
    places =
        each_update name limit (Fits name) s.pc t _
          (Fits-move name limit s.mem r.heap (s.pc t) (λ k j e. (v.attached.entries k j e).1)
            (r.places t))
          r.places;
  }
  Ranged-Step threads s _ (call_add t i d below free made small) v r = record {
    heap = r.heap;
    places = each_update name limit (Fits name) s.pc t (adding i d) tt r.places;
  }
  Ranged-Step threads s _ (call_set t i d below free made small) v r = record {
    heap = r.heap;
    places = each_update name limit (Fits name) s.pc t (storing i d) small r.places;
  }
  Ranged-Step threads s _ (visit_entry i k some_thread free found) v r = record {
    heap = r.heap;
    places = each_update name limit (Fits name) s.pc 0 (reading i visit) tt r.places;
  }
  Ranged-Step threads s _ (create_counter free) v r = record {
    heap =
        HeapFits-update s.mem.heap s.mem.count _ (fresh_fits s.mem.count).0
          (fresh_fits s.mem.count).1 r.heap;
    places = r.places;
  }

  -- What all threads have under way.
  abbrev pub under_way : Bytes → ℕ → (ℕ → Pc) → ℕ
  under_way k threads pc = sum_below (λ t. transit name k (pc t)) threads

  under_way-update :
      (k : Bytes) (threads t : ℕ) (pc : ℕ → Pc) (p : Pc)
      → t < threads
      → under_way k threads (update pc t p) + transit name k (pc t)
        ≡ under_way k threads pc + transit name k p
  under_way-update k threads t pc p below =
      let same : (t == t) ≡ true = ground arith in
      let written : update pc t p t ≡ p = rw same refl in
      sum_below-change (λ u. transit name k (pc u)) (λ u. transit name k (update pc t p u)) t
        threads below (λ j e. rw e refl)
      ∙ ap (λ x. under_way k threads pc + transit name k x) written

  abbrev pub Balanced : Bytes → ℕ → System name limit → Type 0
  Balanced k threads s =
      (sum_of k s.mem.sent + owing name k s.mem + under_way k threads s.pc) % u64
      ≡ sum_of k s.mem.asked % u64

  -- A call begins, and takes nothing with it.
  Balanced-call :
      (k : Bytes) (threads t : ℕ) (s : System name limit) (p : Pc)
      → t < threads
      → s.pc t ≡ idle
      → transit name k p ≡ 0
      → Balanced k threads s
      → Balanced k threads (record s { pc = update s.pc t p })
  Balanced-call k threads t s p below free none_taken b =
      let trade = under_way-update k threads t s.pc p below in
      let before = ap (transit name k) free in omega (arith, trade, before, none_taken, b)

  owing-create :
      (k : Bytes) (s : System name limit)
      → owing name k (create name limit s.mem) ≡ owing name k s.mem
  owing-create k s =
      let n = s.mem.count in
      let same : (n == n) ≡ true = ground arith in
      let at : counted k (name n) (pending (update s.mem.heap n (fresh name limit n) n)) ≡ 0 =
        rw same (rw (fresh_owes n) (ground arith)) in
      let rest =
        sum_below-same (λ j. counted k (name j) (pending (s.mem.heap j)))
          (λ j. counted k (name j) (pending (update s.mem.heap n (fresh name limit n) j))) n
          (λ j below.
            let other : (n == j) ≡ false = (let b : j < n = below in ground arith) in
            rw other refl) in
      omega (arith, at, rest)

  Balanced-Step :
      (k : Bytes) (threads : ℕ) (s t : System name limit)
      → Step name limit threads s t
      → Inv name limit s
      → Ranged s
      → Balanced k threads s
      → Balanced k threads t
  Balanced-Step k threads s _ (run t below) v r b =
      books_numbers _ _ _ _ _ _ _ _ _ _ (under_way-update k threads t s.pc _ below)
        (move-Balances name limit k s.mem r.heap (s.pc t) (r.places t) (v.below t)) b
  Balanced-Step k threads s _ (call_add t i d below free made small) v r b =
      Balanced-call k threads t s (adding i d) below free refl b
  Balanced-Step k threads s _ (call_set t i d below free made small) v r b =
      Balanced-call k threads t s (storing i d) below free refl b
  Balanced-Step k threads s _ (visit_entry i x some_thread free found) v r b =
      Balanced-call k threads 0 s (reading i visit) some_thread free refl b
  Balanced-Step k threads s _ (create_counter free) v r b =
      ap (λ x. (sum_of k s.mem.sent + x + under_way k threads s.pc) % u64) (owing-create k s) ∙ b

  pub Ranged-Reach : (threads : ℕ) (s : System name limit) → Reach name limit threads s → Ranged s
  Ranged-Reach threads _ start = record { heap = fresh_fits; places = λ t. tt }
  Ranged-Reach threads _ (later {s} {t} r x) =
      Ranged-Step threads s t x (Inv-Reach name limit threads s r) (Ranged-Reach threads s r)

  -- In every state that any number of writers and one Flush at a time reach, and for every name, what the
  -- sink was sent, what the counters of that name have not sent, and what a thread has latched there and
  -- neither sent nor added to another counter are together what Add and Set were asked to count, in 64 bits.
  pub no_lost_write :
      (k : Bytes) (threads : ℕ) (s : System name limit)
      → Reach name limit threads s
      → Balanced k threads s
  no_lost_write k threads _ start = let nothing = sum_below-zero threads in omega (arith, nothing)
  no_lost_write k threads _ (later {s} {t} r x) =
      Balanced-Step k threads s t x (Inv-Reach name limit threads s r) (Ranged-Reach threads s r)
        (no_lost_write k threads s r)
