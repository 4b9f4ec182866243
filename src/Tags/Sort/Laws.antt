-- ===== src/Tags/Sort/Laws.antt =====
-- `Sort` of internal/tags/tags.go, for each way it sorts.
use gostats.Prelude.{
  ℕ, ◌<◌, ◌≤◌, ◌≡◌, refl, ◌∙◌, true, ◌⊎◌, some, List, [], ◌∷◌, arith, Bool-cases, inl, inr, length,
  get_elem?, set, get_elem?-some, get_elem?-set_ne, SameItems, tally-set, Run, ret, panic,
}
use gostats.Tags.{TagSet, IsSorted}
use gostats.Tags.Sort.{cas, network, run_network}
use gostats.Tags.Sort.Network.{
  exchange, exchange_all, exchange_lem, length-exchange, in_range, gt_bool, all_bits, all_true,
  sorted_bits, gt_tag, exchange_all-IsSorted,
}

-- In range, `cas` is an exchange.
pub cas-exchange :
    (t : TagSet) (i j : ℕ) → i < length t → j < length t → cas t i j ≡ ret (exchange gt_tag i j t)
unfolding cas gt_tag
cas-exchange t i j hi hj =
    let (a, ea) = get_elem?-some t i hi in
    let (b, eb) = get_elem?-some t j hj in rw (exchange_lem gt_tag t i j a b ea eb) (ground arith)

run_network-exchange_all :
    (ops : List (ℕ × ℕ)) (t : TagSet)
    → in_range (length t) ops ≡ true
    → run_network ops t ≡ ret (exchange_all gt_tag ops t)
unfolding run_network exchange_all in_range
run_network-exchange_all [] t h = refl
run_network-exchange_all ((i, j) ∷ ops) t h =
    let hi : i < length t = ground arith in
    let hj : j < length t = ground arith in
    let rest : in_range (length t) ops ≡ true = ground arith in
    rw (cas-exchange t i j hi hj) (
      run_network-exchange_all ops (exchange gt_tag i j t)
        (rw (length-exchange gt_tag t i j hi hj) rest))

exchange-SameItems :
    (t : TagSet) (i j : ℕ) → i < j → j < length t → SameItems (exchange gt_tag i j t) t
exchange-SameItems t i j lt hj p =
    let (a, ea) = get_elem?-some t i (omega arith) in
    let (b, eb) = get_elem?-some t j hj in
    let eb' : get_elem? (set t i b) j ≡ some b =
      get_elem?-set_ne t i j b (λ e. absurd (omega (arith, e))) ∙ eb in
    let first = tally-set p t i a b ea in
    let second = tally-set p (set t i b) j b a eb' in
    rw (exchange_lem gt_tag t i j a b ea eb)
      (elim (Bool-cases (gt_tag a b)) [ inl g ↦ rw g (omega arith) | inr g ↦ rw g ])

exchange_all-SameItems :
    (ops : List (ℕ × ℕ)) (t : TagSet)
    → in_range (length t) ops ≡ true
    → SameItems (exchange_all gt_tag ops t) t
unfolding exchange_all in_range
exchange_all-SameItems [] t h p = refl
exchange_all-SameItems ((i, j) ∷ ops) t h p =
    let lt : i < j = ground arith in
    let hj : j < length t = ground arith in
    let rest : in_range (length t) ops ≡ true = ground arith in
    exchange_all-SameItems ops (exchange gt_tag i j t)
      (rw (length-exchange gt_tag t i j (omega arith) hj) rest) p
    ∙ exchange-SameItems t i j lt hj p

-- What a run that sorts `t` returns: the same tags in the order of their keys.
abbrev pub Sorts : TagSet → Run TagSet → Type 0
Sorts t (ret u) = IsSorted u × SameItems u t
Sorts t panic = ⊥

-- The network of each length lies in range and sorts the Booleans.
abbrev pub IsNetwork : ℕ → List (ℕ × ℕ) → Type 0
IsNetwork n ops =
    (in_range n ops ≡ true) × (all_bits n (λ l. sorted_bits (exchange_all gt_bool ops l)) ≡ true)

small_cases :
    (n : ℕ)
    → n ≤ 8
    → (n ≤ 1) ⊎ ((n ≡ 2) ⊎ ((n ≡ 3) ⊎ ((n ≡ 4) ⊎ ((n ≡ 5) ⊎ ((n ≡ 6) ⊎ ((n ≡ 7) ⊎ (n ≡ 8)))))))
small_cases n h = ground arith

pub network-IsNetwork : (n : ℕ) → 2 ≤ n → n ≤ 8 → IsNetwork n (network n)
unfolding in_range all_bits sorted_bits exchange_all exchange gt_bool all_true
network-IsNetwork n h k = elim (small_cases n k) [
  | inl e ↦ absurd (omega arith)
  | inr (inl e) ↦ rw e (refl, refl)
  | inr (inr (inl e)) ↦ rw e (refl, refl)
  | inr (inr (inr (inl e))) ↦ rw e (refl, refl)
  | inr (inr (inr (inr (inl e)))) ↦ rw e (refl, refl)
  | inr (inr (inr (inr (inr (inl e))))) ↦ rw e (refl, refl)
  | inr (inr (inr (inr (inr (inr (inl e)))))) ↦ rw e (refl, refl)
  | inr (inr (inr (inr (inr (inr (inr e)))))) ↦ rw e (refl, refl)
]

pub run_network-Sorts :
    (ops : List (ℕ × ℕ)) (t : TagSet) → IsNetwork (length t) ops → Sorts t (run_network ops t)
run_network-Sorts ops t (fits, bits) =
    rw (run_network-exchange_all ops t fits)
      (exchange_all-IsSorted ops t fits bits, exchange_all-SameItems ops t fits)
