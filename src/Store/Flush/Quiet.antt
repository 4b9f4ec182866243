-- ===== src/Store/Flush/Quiet.antt =====
-- `latch` of stats.go: what is pending in a counter before and after it.
use gostats.Prelude.{
  ℕ, zero, suc, ◌<◌, ◌≡◌, subst, some, List, [], ◌∷◌, arith, ◌==◌, Bool-cases, inl, inr, get_elem?,
  set,
}
use gostats.Bytes.{Bytes}
use gostats.Store.{u64, Counter}
use gostats.Store.Counters.{pending, latch}
use gostats.Store.Labels.{IsCounter}

pub latch-pending :
    (c : Counter) → c.current_value < u64 → c.last_sent_value < u64 → (latch c).0 ≡ pending c
unfolding latch
latch-pending c hc hl = ground arith

-- Nothing is pending once it is latched, and a latch changes only what was last sent.
pub pending-latch : (c : Counter) → pending (latch c).1 ≡ 0
unfolding latch
pending-latch c = ground arith

pub latch-IsCounter : (l : Bytes) (c : Counter) → IsCounter l c → IsCounter l (latch c).1
unfolding latch
latch-IsCounter l c (hc, hl, hn) = elim (Bool-cases (c.current_value == c.last_sent_value)) [
  | inl e ↦ rw e (hc, hl, hn)
  | inr e ↦ rw e (hc, hc, hn)
]

-- Nothing is pending in the counter at an index.
abbrev pub IsQuiet : List Counter → ℕ → Type 0
IsQuiet h i = (c : Counter) → get_elem? h i ≡ some c → pending c ≡ 0

pub IsQuiet-set :
    (h : List Counter) (i j : ℕ) (new : Counter)
    → pending new ≡ 0
    → IsQuiet h j
    → IsQuiet (set h i new) j
IsQuiet-set [] i j new e q c g = q c g
IsQuiet-set (d ∷ h) zero zero new e q c g =
    let same : new ≡ c = cc in subst (λ b. pending b ≡ 0) same e
IsQuiet-set (d ∷ h) zero (suc j) new e q c g = q c g
IsQuiet-set (d ∷ h) (suc i) zero new e q c g = q c g
IsQuiet-set (d ∷ h) (suc i) (suc j) new e q c g = IsQuiet-set h i j new e q c g

pub IsQuiet-set_self :
    (h : List Counter) (i : ℕ) (new : Counter) → pending new ≡ 0 → IsQuiet (set h i new) i
IsQuiet-set_self [] i new e c g = absurd (cc)
IsQuiet-set_self (d ∷ h) zero new e c g =
    let same : new ≡ c = cc in subst (λ b. pending b ≡ 0) same e
IsQuiet-set_self (d ∷ h) (suc i) new e c g = IsQuiet-set_self h i new e c g
