-- ===== src/Interleave/Schedule.antt =====
-- The steps of the threads in an order that a list gives.
use gostats.Prelude.{
  ℕ, ◌≡◌, refl, ltb, ltb→lt, Bool, true, false, ◌&&◌, Bool-cases, Option-cases, Option, none, some,
  List, [], ◌∷◌, if◌then◌else◌, inl, inr,
}
use gostats.Bytes.{Bytes}
use gostats.Store.{u64}
use gostats.Interleave.{
  Pc, idle, adding, storing, reading, visit, update, create, move, System, run, call_add, call_set,
  visit_entry, create_counter, Reach, later,
}

pub data Action : Type 0 where
  run_thread : ℕ → Action
  begin_add : ℕ → ℕ → ℕ → Action
  begin_set : ℕ → ℕ → ℕ → Action
  begin_visit : Bytes → Action
  make_counter : Action

abbrev pub is_idle : Pc → Bool
is_idle idle = true
is_idle p = false

is_idle-eq : (p : Pc) → is_idle p ≡ true → p ≡ idle
is_idle-eq idle e = refl
is_idle-eq _ e = absurd (cc)

and_split : (a b : Bool) → (a && b) ≡ true → (a ≡ true) × (b ≡ true)
and_split true b e = (refl, e)
and_split false b e = absurd (cc)

module _ (name : ℕ → Bytes) (limit threads : ℕ) where
  -- `none` where the step is not one of the threads'.
  abbrev pub act : System name limit → Action → Option (System name limit)
  act s (run_thread t) =
      if ltb t threads
      then some (record {
        mem = (move name limit s.mem (s.pc t)).0;
        pc = update s.pc t (move name limit s.mem (s.pc t)).1;
      })
      else none
  act s (begin_add t i d) =
      if (ltb t threads && is_idle (s.pc t)) && (ltb i s.mem.count && ltb d u64)
      then some (record s { pc = update s.pc t (adding i d) })
      else none
  act s (begin_set t i v) =
      if (ltb t threads && is_idle (s.pc t)) && (ltb i s.mem.count && ltb v u64)
      then some (record s { pc = update s.pc t (storing i v) })
      else none
  act s (begin_visit k) = elim (s.mem.entry k) [
    | none ↦ none
    | some i ↦
        if ltb 0 threads && is_idle (s.pc 0)
        then some (record s { pc = update s.pc 0 (reading i visit) })
        else none
  ]
  act s make_counter = elim (s.mem.entry (name s.mem.count)) [
    | none ↦ some (record s { mem = create name limit s.mem })
    | some i ↦ none
  ]

  abbrev pub acts : System name limit → List Action → Option (System name limit)
  acts s [] = some s
  acts s (a ∷ rest) = elim (act s a) [ none ↦ none | some t ↦ acts t rest ]

  abbrev pub Reached : Option (System name limit) → Type 0
  Reached none = Unit
  Reached (some s) = Reach name limit threads s

  act-Reached :
      (s : System name limit) (a : Action) → Reach name limit threads s → Reached (act s a)
  act-Reached s (run_thread t) r = elim (Bool-cases (ltb t threads)) [
    | inl e ↦ rw e (later r (run t (ltb→lt t threads e)))
    | inr e ↦ rw e tt
  ]
  act-Reached s (begin_add t i d) r =
      elim (Bool-cases ((ltb t threads && is_idle (s.pc t)) && (ltb i s.mem.count && ltb d u64))) [
        | inl e ↦
            let both = and_split _ _ e in
            let left = and_split _ _ both.0 in
            let right = and_split _ _ both.1 in
            rw e (
              later r (
                call_add t i d (ltb→lt t threads left.0) (is_idle-eq (s.pc t) left.1)
                  (ltb→lt i s.mem.count right.0) (ltb→lt d u64 right.1)))
        | inr e ↦ rw e tt
      ]
  act-Reached s (begin_set t i d) r =
      elim (Bool-cases ((ltb t threads && is_idle (s.pc t)) && (ltb i s.mem.count && ltb d u64))) [
        | inl e ↦
            let both = and_split _ _ e in
            let left = and_split _ _ both.0 in
            let right = and_split _ _ both.1 in
            rw e (
              later r (
                call_set t i d (ltb→lt t threads left.0) (is_idle-eq (s.pc t) left.1)
                  (ltb→lt i s.mem.count right.0) (ltb→lt d u64 right.1)))
        | inr e ↦ rw e tt
      ]
  act-Reached s (begin_visit k) r = elim (Option-cases (s.mem.entry k)) [
    | inl e ↦ rw (e, Reached, act) tt
    | inr (i, e) ↦
        rw (e, Reached, act)
          (elim (Bool-cases (ltb 0 threads && is_idle (s.pc 0))) [
            | inl g ↦
                let both = and_split _ _ g in
                rw g (
                  later r
                    (visit_entry i k (ltb→lt 0 threads both.0) (is_idle-eq (s.pc 0) both.1) e))
            | inr g ↦ rw g tt
          ])
  ]
  act-Reached s make_counter r = elim (Option-cases (s.mem.entry (name s.mem.count))) [
    | inl e ↦ rw (e, Reached, act) (later r (create_counter e))
    | inr (i, e) ↦ rw (e, Reached, act) tt
  ]

  Reached-next :
      (rest : List Action)
      → ((s : System name limit) → Reach name limit threads s → Reached (acts s rest))
      → (o : Option (System name limit)) → Reached o
      → Reached (elim o [ none ↦ none | some t ↦ acts t rest ])
  Reached-next rest h none r = tt
  Reached-next rest h (some t) r = h t r

  pub acts-Reached :
      (s : System name limit) (actions : List Action)
      → Reach name limit threads s
      → Reached (acts s actions)
  acts-Reached s [] r = r
  acts-Reached s (a ∷ rest) r =
      Reached-next rest (λ t h. acts-Reached t rest h) (act s a) (act-Reached s a r)
