-- ===== src/Store/Labels.antt =====
-- The names under which counters were registered, as a list beside the heap, and the invariant that ties
-- the heap and the map of counters to it. A counter itself knows its name only if it may be pruned.
use gostats.Prelude.{
  ℕ, zero, suc, ◌+◌, ◌<◌, ◌≡◌, refl, subst, true, some, List, [], ◌∷◌, ◌++◌, arith, if◌then◌else◌,
  length, get_elem?, set, All,
}
use gostats.Bytes.{Bytes, beq}
use gostats.Names.{HasUniqueNames}
use gostats.Store.{u64, Counter, Call, Store}
use gostats.Store.Counters.{pending}

-- A counter's words are in range, and if it may be pruned it has its name.
abbrev pub IsCounter : Bytes → Counter → Type 0
IsCounter l c =
    (c.current_value < u64) × (c.last_sent_value < u64) × (c.has_store ≡ true → c.name ≡ l)

abbrev pub Labelled : List Bytes → List Counter → Type 0
Labelled [] [] = Unit
Labelled [] (c ∷ h) = ⊥
Labelled (l ∷ ls) [] = ⊥
Labelled (l ∷ ls) (c ∷ h) = IsCounter l c × Labelled ls h

-- Each entry of the map points to a counter that was registered under its name.
abbrev pub Maps : List Bytes → List (Bytes × ℕ) → Type 0
Maps labels = All (λ e. get_elem? labels e.1 ≡ some e.0)

-- The store as a whole: every pointer of a map leads to an object, and no name has two counters.
pub record IsValid {F : Type 0} (labels : List Bytes) (s : Store F) : Type 0 where
  pub heap : Labelled labels s.counter_heap
  pub entries : Maps labels s.counters
  pub unique : HasUniqueNames s.counters
  pub gauges : All (λ e. e.1 < length s.gauge_heap) s.gauges
  pub timers : All (λ e. e.1 < length s.timer_heap) s.timers

-- What the counters registered under a name have counted and not yet sent.
abbrev pub owed : Bytes → List Bytes → List Counter → ℕ
owed n [] h = 0
owed n (l ∷ ls) [] = 0
owed n (l ∷ ls) (c ∷ h) = (if beq l n then pending c else 0) + owed n ls h

-- What was sent under a name.
abbrev pub flushed : {F : Type 0} → Bytes → List (Call F) → ℕ
flushed n [] = 0
flushed n (Call.flush_counter m v ∷ es) = (if beq m n then v else 0) + flushed n es
flushed n (e ∷ es) = flushed n es

pub flushed-append :
    {F : Type 0} (n : Bytes) (es fs : List (Call F))
    → flushed n (es ++ fs) ≡ flushed n es + flushed n fs
flushed-append n [] fs = omega arith
flushed-append n (Call.flush_counter m v ∷ es) fs = omega (arith, flushed-append n es fs)
flushed-append n (Call.flush_gauge m v ∷ es) fs = flushed-append n es fs
flushed-append n (Call.flush_timer m v ∷ es) fs = flushed-append n es fs
flushed-append n (Call.flush_all ∷ es) fs = flushed-append n es fs

-- The counter that a label belongs to.
pub Labelled-get :
    (ls : List Bytes) (h : List Counter) (i : ℕ) (l : Bytes)
    → Labelled ls h
    → get_elem? ls i ≡ some l
    → (c : Counter) × (get_elem? h i ≡ some c) × IsCounter l c
Labelled-get [] [] i l v e = absurd (cc)
Labelled-get [] (c ∷ h) i l v e = absurd v
Labelled-get (k ∷ ls) [] i l v e = absurd v
Labelled-get (k ∷ ls) (c ∷ h) zero l (hc, v) e =
    let same : k ≡ l = cc in (c, refl, subst (λ j. IsCounter j c) same hc)
Labelled-get (k ∷ ls) (c ∷ h) (suc i) l (hc, v) e = Labelled-get ls h i l v e

pub Labelled-set :
    (ls : List Bytes) (h : List Counter) (i : ℕ) (l : Bytes) (c : Counter)
    → Labelled ls h
    → get_elem? ls i ≡ some l
    → IsCounter l c
    → Labelled ls (set h i c)
Labelled-set [] h i l c v e hc = absurd (cc)
Labelled-set (k ∷ ls) [] i l c v e hc = absurd v
Labelled-set (k ∷ ls) (d ∷ h) zero l c (hd, v) e hc =
    let same : l ≡ k = cc in (subst (λ j. IsCounter j c) same hc, v)
Labelled-set (k ∷ ls) (d ∷ h) (suc i) l c (hd, v) e hc = (hd, Labelled-set ls h i l c v e hc)

-- A write trades what the old counter owed for what the new one owes.
pub owed-set :
    (n : Bytes) (ls : List Bytes) (h : List Counter) (i : ℕ) (l : Bytes) (old new : Counter)
    → get_elem? ls i ≡ some l
    → get_elem? h i ≡ some old
    → owed n ls (set h i new) + (if beq l n then pending old else 0)
      ≡ owed n ls h + (if beq l n then pending new else 0)
owed-set n [] h i l old new e g = absurd (cc)
owed-set n (k ∷ ls) [] i l old new e g = absurd (cc)
owed-set n (k ∷ ls) (d ∷ h) zero l old new e g =
    let same : k ≡ l = cc in let same' : d ≡ old = cc in rw (same, same') (omega arith)
owed-set n (k ∷ ls) (d ∷ h) (suc i) l old new e g = omega (arith, owed-set n ls h i l old new e g)
