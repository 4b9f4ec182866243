-- ===== src/Handler/Responses/Codes.antt =====
-- `httpHandler.counter` of stat_handler.go: the counters by status code.
use gostats.Prelude.{
  ℕ, ◌≡◌, refl, ◌∙◌, ap, subst, ==_iff, true, some, Option-cases, List, [], ◌∷◌, ◌++◌, Bool-cases,
  inl, inr, get_elem?, All, All-map, Run, ret,
}
use gostats.Bytes.{Bytes, codes}
use gostats.Tags.Merge.{merge_tags}
use gostats.Tags.Serialize.{serialize}
use gostats.Settings.{ℤ}
use gostats.Store.{Store}
use gostats.Store.Registry
use gostats.Store.Labels.{IsValid}
use gostats.Store.Rejoin.{total}
use gostats.Store.Fresh.{new_counter-Registers}
use gostats.Scopes.{scoped_with_tags}
use gostats.Scopes.Interface.{Scope, store_scope, sub_scope, scope_counter}
use gostats.Handler.Responses.{itoa, same_code, Response, find_code, code_counter}

same_code_sound : (i j : ℤ) → same_code i j ≡ true → i ≡ j
unfolding same_code
same_code_sound (ℤ.pos m) (ℤ.pos n) h = ap ℤ.pos ((==_iff m n).0 h)
same_code_sound (ℤ.negsuc m) (ℤ.negsuc n) h = ap ℤ.negsuc ((==_iff m n).0 h)
same_code_sound (ℤ.pos m) (ℤ.negsuc n) h = absurd (cc)
same_code_sound (ℤ.negsuc m) (ℤ.pos n) h = absurd (cc)

-- The name of the counter that a scope makes, and that of a status code.
abbrev pub scope_name : Scope → Bytes → Bytes
scope_name store_scope name = name
scope_name (sub_scope scope) name = serialize scope.tags (scope.name ++ codes "." ++ name)

abbrev pub code_name : Scope → ℤ → Bytes
code_name scope code = scope_name scope (itoa code)

-- Each code's counter was registered under the code's name.
abbrev pub HasCodes : Scope → List Bytes → List (ℤ × ℕ) → Type 0
HasCodes scope labels = All (λ e. get_elem? labels e.1 ≡ some (code_name scope e.0))

find_code-HasCodes :
    (scope : Scope) (labels : List Bytes) (code : ℤ) (i : ℕ) (cached : List (ℤ × ℕ))
    → HasCodes scope labels cached
    → find_code code cached ≡ some i
    → get_elem? labels i ≡ some (code_name scope code)
unfolding find_code
find_code-HasCodes scope labels code i [] h e = absurd (cc)
find_code-HasCodes scope labels code i ((c, j) ∷ cached) (hj, h) e =
    elim (Bool-cases (same_code c code)) [
      | inl g ↦
          let same : c ≡ code = same_code_sound c code g in
          let index : j ≡ i = cc (rw g at e) in
          subst (λ (k : ℕ). get_elem? labels k ≡ some (code_name scope code)) index
            (hj ∙ ap (λ (d : ℤ). some (code_name scope d)) same)
      | inr g ↦ find_code-HasCodes scope labels code i cached h (rw g at e)
    ]

scope_counter_lem :
    {F : Type 0} (scope : Scope) (name : Bytes) (s : Store F)
    → scope_counter scope name s ≡ ret (Registry.new_counter (scope_name scope name) s)
unfolding scope_counter scoped_with_tags merge_tags
scope_counter_lem store_scope name s = refl
scope_counter_lem (sub_scope scope) name s = refl

module _ {F : Type 0} (scope : Scope) where
  -- A scope's `NewCounter` makes the counter of the joined name with the scope's own tags.
  pub new_counter_lem :
      (name : Bytes) (s : Store F)
      → scope_counter scope name s ≡ ret (Registry.new_counter (scope_name scope name) s)
  new_counter_lem name s = scope_counter_lem scope name s

  -- The counter of a code is found or made; it was registered under the code's name, and no count changed.
  abbrev pub Finds : List Bytes → ℤ → Response F → Run (ℕ × Response F) → Type 0
  Finds labels code r run =
      (labels' : List Bytes) × (i : ℕ) × (r' : Response F) × (run ≡ ret (i, r'))
      × IsValid labels' r'.store
      × HasCodes scope labels' r'.codes
      × (get_elem? labels' i ≡ some (code_name scope code))
      × (r'.store.calls ≡ r.store.calls)
      × (r'.sent ≡ r.sent)
      × (r'.header_written ≡ r.header_written)
      × ((n : Bytes) → total labels' n r'.store ≡ total labels n r.store)

  pub code_counter-Finds :
      (labels : List Bytes) (code : ℤ) (r : Response F)
      → IsValid labels r.store
      → HasCodes scope labels r.codes
      → Finds labels code r (code_counter scope code r)
  unfolding code_counter
  code_counter-Finds labels code r v h = elim (Option-cases (find_code code r.codes)) [
    | inr (i, e) ↦
        rw (e, code_counter)
          (
            labels,
            i,
            r,
            refl,
            v,
            h,
            find_code-HasCodes scope labels code i r.codes h e,
            refl,
            refl,
            refl,
            λ n. refl,
          )
    | inl e ↦
        let name = code_name scope code in
        let (labels1, registered) = new_counter-Registers labels name r.store v in
        let (v1, named, found, calls, same, kept, entries, heap) = registered in
        let made : ℕ × Store F = Registry.new_counter name r.store in
        rw (e, code_counter)
          (rw (new_counter_lem (itoa code) r.store) (
            labels1,
            made.0,
            record r { codes = (code, made.0) ∷ r.codes; store = made.1 },
            refl,
            v1,
            (
              named,
              All-map (λ (e : ℤ × ℕ). get_elem? labels e.1 ≡ some (code_name scope e.0))
                  (λ (e : ℤ × ℕ). get_elem? labels1 e.1 ≡ some (code_name scope e.0)) r.codes
                  (λ e g. kept e.1 (code_name scope e.0) g) h,
            ),
            named,
            calls,
            refl,
            refl,
            same,
          ))
  ]
