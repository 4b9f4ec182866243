-- ===== src/Scopes/PerInstance.antt =====
-- The name that a per-instance statistic of a store has, for every kind of statistic.
use gostats.Prelude.{
  ℕ, ◌≡◌, refl, sym, ◌∙◌, ap, subst, suc-==_zero, ◌==◌, false, Option, [], ◌∷◌, if◌then◌else◌,
  Bool-cases, inl, inr, length, Run, ret, panic, arith,
}
use gostats.Bytes.{Bytes, beq, beq→eq}
use gostats.Tags.{TagMap, TagSet, IsOrdered, replace_chars, replace_char}
use gostats.Tags.Build.{IsMap, tag_value, tags_of, tags_of-IsOrdered, find-tags_of}
use gostats.Tags.Search.Laws.{find}
use gostats.Tags.Merge.{instance_key}
use gostats.Tags.Merge.Union.{or_else, or_else-none}
use gostats.Tags.Merge.PerInstance.{default_value, merge_per_instance_tags-find}
use gostats.Tags.Serialize.{serialize, serialize_tags}
use gostats.Tags.Serialize.Laws.{serialize_tags-tags_text, serialize-tags_text}
use gostats.Store.{Store}
use gostats.Scopes.{
  is_reserved, empty_per_instance_tags, has_key, Create, validate_tags, with_tags, per_instance,
}

-- The value that a key has in the name: that of the tags, and for a `_f` that is no key of them, `i`.
abbrev pub instance_value : Bytes → TagMap → Option Bytes
instance_value k tags =
    if has_key instance_key tags
    then tag_value k tags
    else or_else (tag_value k tags) (default_value k)

at_key : tag_value instance_key empty_per_instance_tags ≡ default_value instance_key
unfolding beq replace_chars replace_char
at_key = refl

module _ {F : Type 0} where
  validate_nil : (s : Store F) → validate_tags [] s ≡ ret s
  unfolding validate_tags
  validate_nil s = refl

  ret_inj : (s t : Store F) → ret s ≡ ret t → s ≡ t
  ret_inj s t e = ap (λ (r : Run (Store F)). elim r [ ret u ↦ u | panic ↦ s ]) e

module _ {F : Type 0} (create : Create F) (name : Bytes) where
  -- The statistic is made with the name of an ordered set of tags, where a key has its value.
  abbrev pub Names : (Bytes → Option Bytes) → Store F → Run (ℕ × Store F) → Type 0
  Names value s r =
      (set : TagSet) × (r ≡ ret (create (serialize set name) s))
      × IsOrdered set
      × ((k : Bytes) → find k set ≡ value k)

  with_tags-Names :
      (tags : TagMap) (s s1 : Store F)
      → IsMap tags
      → validate_tags tags s ≡ ret s1
      → Names (λ k. tag_value k tags) s1 (with_tags create name tags s)
  unfolding with_tags
  with_tags-Names tags s s1 h e =
      let text : serialize_tags name tags ≡ serialize (tags_of tags) name =
        serialize_tags-tags_text name tags h ∙ sym (serialize-tags_text (tags_of tags) name) in
      (
        tags_of tags,
        rw e (ap (λ (n : Bytes). ret (create n s1)) text),
        tags_of-IsOrdered tags h,
        λ k. find-tags_of tags k h,
      )

  empty_tags-IsMap : IsMap empty_per_instance_tags
  empty_tags-IsMap k = ground arith

  empty_tags-value : (k : Bytes) → tag_value k empty_per_instance_tags ≡ default_value k
  empty_tags-value k = elim (Bool-cases (beq instance_key k)) [
    | inl e ↦
        subst (λ (j : Bytes). tag_value j empty_per_instance_tags ≡ default_value j)
          (beq→eq instance_key k e) at_key
    | inr e ↦ rw e refl
  ]

  empty_tags-validate : (s : Store F) → validate_tags empty_per_instance_tags s ≡ ret s
  unfolding validate_tags is_reserved beq
  empty_tags-validate s = refl

  -- If `validateTags` ends, so does the constructor of a per-instance statistic of a store, of any kind. The
  -- name that it gives the statistic is that of ordered tags, where a key has the value that the tags
  -- give it, and `_f` the value `i` if it is no key of the tags. No key is twice in the tags.
  pub per_instance-Names :
      (tags : TagMap) (s s1 : Store F)
      → IsMap tags
      → validate_tags tags s ≡ ret s1
      → Names (λ k. instance_value k tags) s1 (per_instance create name tags s)
  unfolding per_instance
  per_instance-Names [] s s1 h e =
      let same : s ≡ s1 = ret_inj s s1 (sym (validate_nil s) ∙ e) in
      let (set, made, ordered, found) =
        with_tags-Names empty_per_instance_tags s s empty_tags-IsMap (empty_tags-validate s) in
      (
        set,
        made ∙ ap (λ (t : Store F). ret (create (serialize set name) t)) same,
        ordered,
        λ k. found k ∙ empty_tags-value k,
      )
  per_instance-Names ((j, v) ∷ tags) s s1 h e =
      let nonempty : (length ((j, v) ∷ tags) == 0) ≡ false = suc-==_zero (length tags) in
      elim (Bool-cases (has_key instance_key ((j, v) ∷ tags))) [
        | inl g ↦ rw (nonempty, g) (with_tags-Names ((j, v) ∷ tags) s s1 h e)
        | inr g ↦
            let (set, made, ordered, found) =
              merge_per_instance_tags-find [] ((j, v) ∷ tags) tt h in
            rw (nonempty, g)
              (
                set,
                rw (e, made) refl,
                ordered,
                λ k.
                    found k
                    ∙ ap (λ (o : Option Bytes). or_else o (default_value k))
                        (or_else-none (tag_value k ((j, v) ∷ tags))),
              )
      ]
