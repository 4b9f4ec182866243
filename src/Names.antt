-- ===== src/Names.antt =====
-- Maps from names, such as the `sync.Map`s of stats.go: association lists in the order in which a `Range`
-- visits them.
use gostats.Prelude.{
  ◌≡◌, refl, sym, ap, ◌∙◌, subst, Option, none, some, List, [], ◌∷◌, ◌++◌, arith, if◌then◌else◌,
  Bool-cases, inl, inr, All,
}
use gostats.Bytes.{Bytes, beq, beq_refl, beq→eq, beq_sym}

module _ {V : Type 0} where
  abbrev pub lookup : Bytes → List (Bytes × V) → Option V
  lookup k [] = none
  lookup k ((j, v) ∷ m) = if beq j k then some v else lookup k m

  -- A new entry. It is visited last.
  abbrev pub add_entry : Bytes → V → List (Bytes × V) → List (Bytes × V)
  add_entry k v m = m ++ (k, v) ∷ []

  abbrev pub delete : Bytes → List (Bytes × V) → List (Bytes × V)
  delete k [] = []
  delete k ((j, v) ∷ m) = if beq j k then delete k m else (j, v) ∷ delete k m

  -- The value of an entry changes. A name that is not there has the value `v` first.
  abbrev pub modify : V → (V → V) → Bytes → List (Bytes × V) → List (Bytes × V)
  modify v f k [] = (k, f v) ∷ []
  modify v f k ((j, w) ∷ m) = if beq j k then (j, f w) ∷ m else (j, w) ∷ modify v f k m

  abbrev pub value_or : V → Option V → V
  value_or v none = v
  value_or v (some w) = w

module _ {V : Type 0} where
  pub lookup-modify :
      (v : V) (f : V → V) (j k : Bytes) (m : List (Bytes × V))
      → lookup j (modify v f k m)
        ≡ (if beq k j then some (f (value_or v (lookup k m))) else lookup j m)
  lookup-modify v f j k [] = refl
  lookup-modify v f j k ((i, w) ∷ m) = elim (Bool-cases (beq i k)) [
    | inl e ↦ let names = ap (λ x. beq x j) (beq→eq i k e) in rw e (ground (arith, names))
    | inr e ↦
        let rest = lookup-modify v f j k m in
        rw e (elim (Bool-cases (beq i j)) [
          | inl g ↦ elim (Bool-cases (beq k j)) [
            | inl h ↦ absurd (cc (rw (beq→eq i j g ∙ sym (beq→eq k j h), beq_refl k) at e))
            | inr h ↦ rw (g, h) refl
          ]
          | inr g ↦ rw g rest
        ])
  ]

  -- A new entry is found unless the name was there.
  pub lookup-add_entry :
      (j k : Bytes) (v : V) (m : List (Bytes × V))
      → lookup k m ≡ none
      → lookup j (add_entry k v m) ≡ (if beq k j then some v else lookup j m)
  lookup-add_entry j k v [] h = refl
  lookup-add_entry j k v ((i, w) ∷ m) h =
      ground (arith, lookup-add_entry j k v m, beq→eq i j, beq→eq k j, beq_refl j)

  pub lookup-delete :
      (j k : Bytes) (m : List (Bytes × V))
      → lookup j (delete k m) ≡ (if beq k j then none else lookup j m)
  lookup-delete j k [] = ground arith
  lookup-delete j k ((i, w) ∷ m) =
      ground (arith, lookup-delete j k m, beq→eq i k, beq→eq k j, beq→eq i j, beq_refl k)

  pub All-delete :
      (P : Bytes × V → Type 0) (k : Bytes) (m : List (Bytes × V)) → All P m → All P (delete k m)
  All-delete P k [] h = tt
  All-delete P k ((i, w) ∷ m) (hi, h) = elim (Bool-cases (beq i k)) [
    | inl e ↦ rw e (All-delete P k m h)
    | inr e ↦ rw e (hi, All-delete P k m h)
  ]

  -- What all entries have, the one that is found has, at the name that is looked up.
  pub All-lookup :
      (P : Bytes × V → Type 0) (k : Bytes) (v : V) (m : List (Bytes × V))
      → All P m
      → lookup k m ≡ some v
      → P (k, v)
  All-lookup P k v [] h e = absurd (cc)
  All-lookup P k v ((i, w) ∷ m) (hi, h) e = elim (Bool-cases (beq i k)) [
    | inl g ↦
        let name : i ≡ k = beq→eq i k g in
        let value : w ≡ v = cc (rw g at e) in
        let same : ◌≡◌ {A = Bytes × V} (i, w) (k, v) = cc in subst P same hi
    | inr g ↦ All-lookup P k v m h (rw g at e)
  ]

module _ {V W : Type 0} (g : V → W) where
  abbrev pub along : Option V → Option W
  along none = none
  along (some v) = some (g v)

  pub value_or-along : (v : V) (o : Option V) → value_or (g v) (along o) ≡ g (value_or v o)
  value_or-along v none = refl
  value_or-along v (some w) = refl

  -- Two maps that agree along `g` still do after a change of an entry that agrees along `g`.
  pub modify-along :
      (v : V) (f : V → V) (f' : W → W)
      → ((p : V) → f' (g p) ≡ g (f p))
      → (k : Bytes) (m : List (Bytes × W)) (t : List (Bytes × V))
      → ((j : Bytes) → lookup j m ≡ along (lookup j t))
      → (j : Bytes) → lookup j (modify (g v) f' k m) ≡ along (lookup j (modify v f k t))
  modify-along v f f' same k m t agree j =
      rw (lookup-modify (g v) f' j k m, lookup-modify v f j k t)
        (elim (Bool-cases (beq k j)) [
          | inl e ↦
              rw (e, agree k, value_or-along v (lookup k t))
                (ap some (same (value_or v (lookup k t))))
          | inr e ↦ rw e (agree j)
        ])

-- No name has two entries.
abbrev pub HasUniqueNames : {V : Type 0} → List (Bytes × V) → Type 0
HasUniqueNames [] = Unit
HasUniqueNames ((k, v) ∷ m) = (lookup k m ≡ none) × HasUniqueNames m

module _ {V : Type 0} where
  pub HasUniqueNames-delete :
      (k : Bytes) (m : List (Bytes × V)) → HasUniqueNames m → HasUniqueNames (delete k m)
  HasUniqueNames-delete k [] h = tt
  HasUniqueNames-delete k ((i, w) ∷ m) (hi, h) = elim (Bool-cases (beq i k)) [
    | inl e ↦ rw e (HasUniqueNames-delete k m h)
    | inr e ↦ rw e (lookup-delete i k m ∙ ground (arith, hi), HasUniqueNames-delete k m h)
  ]

  pub HasUniqueNames-add_entry :
      (k : Bytes) (v : V) (m : List (Bytes × V))
      → lookup k m ≡ none
      → HasUniqueNames m
      → HasUniqueNames (add_entry k v m)
  HasUniqueNames-add_entry k v [] e h = (refl, tt)
  HasUniqueNames-add_entry k v ((i, w) ∷ m) e (hi, h) = elim (Bool-cases (beq i k)) [
    | inl g ↦ absurd (cc (rw g at e))
    | inr g ↦
        let e' : lookup k m ≡ none = rw g at e in
        (
          lookup-add_entry i k v m e' ∙ ground (arith, hi, beq_sym i k),
          HasUniqueNames-add_entry k v m e' h,
        )
  ]
