-- ===== src/Tags/Sort/Network.antt =====
-- The zero-one principle: a network of exchanges that sorts every list of Booleans of a length sorts
-- every list of that length.
use gostats.Prelude.{
  ℕ, zero, suc, ◌<◌, ◌≡◌, refl, sym, ◌∙◌, ap, Bool, true, false, not, ◌&&◌, ◌||◌, none, some, List,
  [], ◌∷◌, map, arith, ltb, if◌then◌else◌, Bool-cases, inl, inr, length, get_elem?, set, length-set,
  length-map, set_self, map-set, get_elem?-map, get_elem?-some, All,
}
use gostats.Bytes.{Bytes, less, less_irrefl, less_trans, less_cotrans}
use gostats.Tags.{Tag, TagSet, key_less, IsSorted}

-- Exchange two items that stand in the wrong order.
unfoldable pub exchange {ℓ} : {A : Type ℓ} → (A → A → Bool) → ℕ → ℕ → List A → List A
exchange gt i j t = elim (get_elem? t i) [
  | none ↦ t
  | some a ↦ elim (get_elem? t j) [ none ↦ t | some b ↦ if gt a b then set (set t i b) j a else t ]
]

unfoldable pub exchange_all {ℓ} : {A : Type ℓ} → (A → A → Bool) → List (ℕ × ℕ) → List A → List A
exchange_all gt [] t = t
exchange_all gt ((i, j) ∷ ops) t = exchange_all gt ops (exchange gt i j t)

module _ {ℓ} {A : Type ℓ} (gt : A → A → Bool) where
  -- The exchange of two items in range.
  pub exchange_lem :
      (t : List A) (i j : ℕ) (a b : A)
      → get_elem? t i ≡ some a
      → get_elem? t j ≡ some b
      → exchange gt i j t ≡ (if gt a b then set (set t i b) j a else t)
  unfolding exchange
  exchange_lem t i j a b hi hj = rw (hi, exchange) (rw (hj, exchange))

  pub length-exchange :
      (t : List A) (i j : ℕ) → i < length t → j < length t → length (exchange gt i j t) ≡ length t
  length-exchange t i j hi hj =
      let (a, ea) = get_elem?-some t i hi in
      let (b, eb) = get_elem?-some t j hj in
      rw (exchange_lem t i j a b ea eb) (elim (Bool-cases (gt a b)) [
        | inl g ↦ rw g (length-set (set t i b) j a ∙ length-set t i b)
        | inr g ↦ rw g
      ])

-- Every position that the network names lies below `n`.
unfoldable pub in_range : ℕ → List (ℕ × ℕ) → Bool
in_range n [] = true
in_range n ((i, j) ∷ ops) = (ltb i j && ltb j n) && in_range n ops

-- The Booleans as items: `true` belongs behind `false`.
unfoldable pub gt_bool : Bool → Bool → Bool
gt_bool a b = a && not b

-- `f` sends an ordered pair to an ordered pair, and an exchanged one to an exchanged or equal one.
abbrev IsMonotone {ℓ} : {A : Type ℓ} → (A → A → Bool) → (A → Bool) → Type ℓ
IsMonotone {A} gt f =
    (a b : A)
    → (gt a b ≡ false → gt_bool (f a) (f b) ≡ false)
      × (gt a b ≡ true → gt_bool (f a) (f b) ≡ false → f a ≡ f b)

module _ {ℓ} {A : Type ℓ} (gt : A → A → Bool) (f : A → Bool) (mono : IsMonotone gt f) where
  -- A swap of two items that `f` does not tell apart is not seen through `f`.
  map-swap_eq :
      (t : List A) (i j : ℕ) (a b : A)
      → get_elem? t i ≡ some a
      → get_elem? t j ≡ some b
      → f a ≡ f b
      → map f (set (set t i b) j a) ≡ map f t
  map-swap_eq t i j a b ea eb e =
      let back : set (map f t) i (f b) ≡ map f t =
        set_self (map f t) i (f b) (get_elem?-map f t i a ea ∙ ap some e) in
      map-set f (set t i b) j a
      ∙ ap (λ u. set u j (f a)) (map-set f t i b ∙ back)
      ∙ set_self (map f t) j (f a) (get_elem?-map f t j b eb ∙ ap some (sym e))

  map-exchange :
      (t : List A) (i j : ℕ)
      → i < length t
      → j < length t
      → map f (exchange gt i j t) ≡ exchange gt_bool i j (map f t)
  map-exchange t i j hi hj =
      let (a, ea) = get_elem?-some t i hi in
      let (b, eb) = get_elem?-some t j hj in
      rw
        (
          exchange_lem gt t i j a b ea eb,
          exchange_lem gt_bool (map f t) i j (f a) (f b) (get_elem?-map f t i a ea)
              (get_elem?-map f t j b eb),
        )
        (elim (Bool-cases (gt a b)) [
          | inr g ↦ rw (g, (mono a b).0 g)
          | inl g ↦ rw g (elim (Bool-cases (gt_bool (f a) (f b))) [
            | inl k ↦ rw k (map-set f (set t i b) j a ∙ ap (λ u. set u j (f a)) (map-set f t i b))
            | inr k ↦ rw k (map-swap_eq t i j a b ea eb ((mono a b).1 g k))
          ])
        ])

  map-exchange_all :
      (ops : List (ℕ × ℕ)) (t : List A)
      → in_range (length t) ops ≡ true
      → map f (exchange_all gt ops t) ≡ exchange_all gt_bool ops (map f t)
  unfolding exchange_all in_range
  map-exchange_all [] t h = refl
  map-exchange_all ((i, j) ∷ ops) t h =
      let hi : i < length t = ground arith in
      let hj : j < length t = ground arith in
      let rest : in_range (length t) ops ≡ true = ground arith in
      map-exchange_all ops (exchange gt i j t) (rw (length-exchange gt t i j hi hj) rest)
      ∙ ap (exchange_all gt_bool ops) (map-exchange t i j hi hj)

-- A test on every list of `n` Booleans.
unfoldable pub all_bits : ℕ → (List Bool → Bool) → Bool
all_bits zero p = p []
all_bits (suc n) p = all_bits n (λ l. p (false ∷ l)) && all_bits n (λ l. p (true ∷ l))

all_bits_sound :
    (n : ℕ) (p : List Bool → Bool) (l : List Bool) → all_bits n p ≡ true → length l ≡ n → p l ≡ true
unfolding all_bits
all_bits_sound zero p [] h e = h
all_bits_sound zero p (b ∷ l) h e = absurd (omega arith)
all_bits_sound (suc n) p [] h e = absurd (omega arith)
all_bits_sound (suc n) p (false ∷ l) h e =
    all_bits_sound n (λ u. p (false ∷ u)) l (ground arith) (omega arith)
all_bits_sound (suc n) p (true ∷ l) h e =
    all_bits_sound n (λ u. p (true ∷ u)) l (ground arith) (omega arith)

unfoldable pub all_true : List Bool → Bool
all_true [] = true
all_true (b ∷ l) = b && all_true l

-- No `true` stands before a `false`.
unfoldable pub sorted_bits : List Bool → Bool
sorted_bits [] = true
sorted_bits (b ∷ l) = (not b || all_true l) && sorted_bits l

-- The keys above a bound.
above : Bytes → Tag → Bool
above c q = less c q.key

unfoldable pub gt_tag : Tag → Tag → Bool
gt_tag a b = key_less b a

above-IsMonotone : (c : Bytes) → IsMonotone gt_tag (above c)
unfolding above gt_tag gt_bool
above-IsMonotone c a b = (
  λ h. ground (arith, less_cotrans c b.key a.key),
  λ h k. ground (arith, less_trans c b.key a.key),
)

above-All :
    (p : Tag) (t : TagSet)
    → ((c : Bytes) → above c p ≡ true → all_true (map (above c) t) ≡ true)
    → All (λ q. key_less q p ≡ false) t
unfolding above all_true
above-All p [] h = tt
above-All p (q ∷ t) h = (
  elim (Bool-cases (key_less q p)) [
    | inl e ↦ ground (arith, h q.key, less_irrefl q.key)
    | inr e ↦ e
  ],
  above-All p t (λ c e. ground (arith, h c e)),
)

-- Tags that are sorted as seen through every bound are sorted.
IsSorted-of_bits : (t : TagSet) → ((c : Bytes) → sorted_bits (map (above c) t) ≡ true) → IsSorted t
unfolding sorted_bits
IsSorted-of_bits [] h = tt
IsSorted-of_bits (p ∷ t) h =
    (above-All p t (λ c e. ground (arith, h c)), IsSorted-of_bits t (λ c. ground (arith, h c)))

-- A network that sorts the Booleans sorts tags.
pub exchange_all-IsSorted :
    (ops : List (ℕ × ℕ)) (t : TagSet)
    → in_range (length t) ops ≡ true
    → all_bits (length t) (λ l. sorted_bits (exchange_all gt_bool ops l)) ≡ true
    → IsSorted (exchange_all gt_tag ops t)
exchange_all-IsSorted ops t fits bits = IsSorted-of_bits (exchange_all gt_tag ops t) λ c.
    rw (map-exchange_all gt_tag (above c) (above-IsMonotone c) ops t fits)
      (all_bits_sound (length t) _ (map (above c) t) bits (length-map (above c) t))
