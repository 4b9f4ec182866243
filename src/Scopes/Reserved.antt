-- ===== src/Scopes/Reserved.antt =====
-- `validateTags` and the constructors that call it.
use gostats.Prelude.{
  ℕ, ◌+◌, ◌%◌, ◌≡◌, refl, ◌∙◌, ap, subst, List, [], ◌∷◌, arith, if◌then◌else◌, Bool-cases, inl, inr,
  tally, Run, ret,
}
use gostats.Bytes.{Bytes, beq}
use gostats.Tags.{TagMap}
use gostats.Tags.Serialize.{serialize_tags}
use gostats.Store.{u64, Store}
use gostats.Store.Counters.{inc}
use gostats.Store.Registry.{new_counter}
use gostats.Store.Labels.{IsValid}
use gostats.Store.Rejoin.{total}
use gostats.Store.Writes.{add-Counts}
use gostats.Store.Fresh.{IsRegistered, new_counter-Registers}
use gostats.Scopes.{
  reserved_tag_words, is_reserved, reserved_tag, counter_kind, validate_tags, with_tags,
}

abbrev pub reserved_count : TagMap → ℕ
reserved_count tags = tally (λ e. is_reserved reserved_tag_words e.0) tags

module _ {F : Type 0} where
  -- The run ends in a valid store that has sent nothing, where `reserved_tag` has counted `amount` more.
  abbrev pub Validates : List Bytes → ℕ → Store F → Run (Store F) → Type 0
  Validates labels amount s r =
      (labels' : List Bytes) × (s' : Store F) × (r ≡ ret s')
      × IsValid labels' s'
      × (s'.calls ≡ s.calls)
      × ((n : Bytes)
          → total labels' n s' % u64
            ≡ (total labels n s + (if beq reserved_tag n then amount else 0)) % u64)

  -- The step for a reserved tag.
  count_reserved :
      (labels : List Bytes) (s : Store F)
      → IsValid labels s
      → Validates labels 1 s (inc (new_counter reserved_tag s).0 (new_counter reserved_tag s).1)
  unfolding inc
  count_reserved labels s v =
      let (labels1, registered) = new_counter-Registers labels reserved_tag s v in
      let (v1, e1, found, calls1, same, kept, entries, heap) = registered in
      let i = (new_counter reserved_tag s).0 in
      let s1 = (new_counter reserved_tag s).1 in
      let (s2, e2, v2, calls2, more) = add-Counts labels1 i reserved_tag 1 s1 v1 e1 in
      (
        labels1,
        s2,
        e2,
        v2,
        calls2 ∙ calls1,
        λ n. more n ∙ ap (λ (t : ℕ). (t + (if beq reserved_tag n then 1 else 0)) % u64) (same n),
      )

  -- `validateTags` ends, keeps the store valid and sends nothing. It adds to the total of the counter
  -- `reserved_tag`, in `uint64`, the number of reserved words among the keys, and to no other total.
  pub validate_tags-Validates :
      (tags : TagMap) (labels : List Bytes) (s : Store F)
      → IsValid labels s
      → Validates labels (reserved_count tags) s (validate_tags tags s)
  unfolding validate_tags
  validate_tags-Validates [] labels s v = (labels, s, refl, v, refl, λ n. ground arith)
  validate_tags-Validates ((k, w) ∷ tags) labels s v =
      elim (Bool-cases (is_reserved reserved_tag_words k)) [
        | inl e ↦
            let (labels1, s1, e1, v1, calls1, more1) = count_reserved labels s v in
            let (labels2, s2, e2, v2, calls2, more2) = validate_tags-Validates tags labels1 s1 v1 in
            rw e (
              labels2,
              s2,
              rw e1 e2,
              v2,
              calls2 ∙ calls1,
              λ n.
                  let m1 = more1 n in
                  let m2 = more2 n in
                  elim (Bool-cases (beq reserved_tag n)) [
                    | inl g ↦
                        let a1 = rw g at m1 in let a2 = rw g at m2 in rw g (omega (arith, a1, a2))
                    | inr g ↦
                        let a1 = rw g at m1 in let a2 = rw g at m2 in rw g (omega (arith, a1, a2))
                  ],
            )
        | inr e ↦
            let none_more : reserved_count tags ≡ 0 + reserved_count tags = omega arith in
            rw e (
              subst (λ (a : ℕ). Validates labels a s (validate_tags tags s)) none_more
                (validate_tags-Validates tags labels s v))
      ]

  -- `NewCounterWithTags` ends, and after it has counted the reserved keys it keeps the store valid, sends
  -- nothing, changes no total, and returns the counter that is registered under the serialized name.
  pub with_tags-Registers :
      (name : Bytes) (tags : TagMap) (labels : List Bytes) (s : Store F)
      → IsValid labels s
      → (labels1 : List Bytes) × (s1 : Store F) × (validate_tags tags s ≡ ret s1)
        × (v1 : IsValid labels1 s1) × (labels2 : List Bytes) × (made : ℕ × Store F) × (with_tags
              counter_kind name tags s
            ≡ ret made)
        × IsRegistered labels1 (serialize_tags name tags) s1 v1 labels2 made
  unfolding with_tags
  with_tags-Registers name tags labels s v =
      let (labels1, s1, e1, v1, calls1, more1) = validate_tags-Validates tags labels s v in
      let (labels2, registered) = new_counter-Registers labels1 (serialize_tags name tags) s1 v1 in
      (
        labels1,
        s1,
        e1,
        v1,
        labels2,
        new_counter (serialize_tags name tags) s1,
        rw e1 refl,
        registered,
      )
