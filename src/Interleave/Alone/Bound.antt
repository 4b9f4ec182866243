-- ===== src/Interleave/Alone/Bound.antt =====
-- How long a thread runs that runs alone.
use gostats.Prelude.{
  ℕ, ◌+◌, ◌%◌, ◌≡◌, refl, sym, subst, ◌==◌, ltb, true, false, Bool-cases, Option, none, some, inl,
  inr, arith,
}
use gostats.Bytes.{Bytes}
use gostats.Store.{u32}
use gostats.Store.Counters.{add_value}
use gostats.Interleave.{
  Then, forward, visit, prune, Pc, idle, adding, storing, forwarding, added, joining, reading,
  read_value, swapping, latched, resetting, clearing, counting, deleting, marking, renewing, Memory,
  set_entry, put, minus, ask, send, move, System, Reach,
}
use gostats.Interleave.Invariant.{Inv-Reach}
use gostats.Interleave.Alone.{
  runs, Ends, Known, Ends-idle, Ends-le, Ends-after, read_value-Ends, swapping-Ends, joining-Ends,
  added-Ends,
}

module _ (name : ℕ → Bytes) (limit : ℕ) where
  -- What follows a latch, where it is reached with the map `entry`.
  abbrev EndsThen : ℕ → ℕ → Then → (Bytes → Option ℕ) → Type 0
  EndsThen n i k entry =
      (m : Memory) (d : ℕ) → m.entry ≡ entry → Ends name limit n m (latched i d k)

  Known-subst :
      (entry entry' : Bytes → Option ℕ)
      → entry' ≡ entry
      → Known name limit entry
      → Known name limit entry'
  Known-subst entry entry' e known = subst (Known name limit) (sym e) known

  forward-EndsThen :
      (i j : ℕ) (entry : Bytes → Option ℕ)
      → Known name limit entry
      → EndsThen 11 i (forward j) entry
  unfolding move
  forward-EndsThen i j entry known m d kept =
      added-Ends name limit (put j (add_value d (m.heap j)) m)
        (Known-subst entry m.entry kept known) j

  renewing-Ends : (m : Memory) (i : ℕ) → Known name limit m.entry → Ends name limit 9 m (renewing i)
  unfolding move
  renewing-Ends m i known =
      joining-Ends name limit (put i (record (m.heap i) { idle_flushes = 0 }) m) known i

  prune-EndsThen :
      (i : ℕ) (entry : Bytes → Option ℕ) → Known name limit entry → EndsThen 10 i prune entry
  unfolding move
  prune-EndsThen i entry known m d kept = elim (Bool-cases (d == 0)) [
    | inl e ↦
        Ends-after name limit 9 m (latched i d prune) m idle (rw e refl) (Ends-idle name limit 9 m)
    | inr e ↦
        Ends-after name limit 9 m (latched i d prune) (send (name i) d m) (renewing i) (rw e refl)
          (renewing-Ends (send (name i) d m) i (Known-subst entry m.entry kept known))
  ]

  marking-Ends : (m : Memory) (i : ℕ) → Known name limit m.entry → Ends name limit 14 m (marking i)
  unfolding move
  marking-Ends m i known =
      read_value-Ends name limit 10 i prune m.entry (prune-EndsThen i m.entry known)
        (put i (record (m.heap i) { detached = true }) m) _ refl

  deleting-Ends :
      (m : Memory) (i : ℕ) → Known name limit m.entry → Ends name limit 15 m (deleting i)
  unfolding move
  deleting-Ends m i known =
      marking-Ends (record m { entry = set_entry m.entry (name i) none }) i
        (λ k j h. let kept : m.entry k ≡ some j = ground arith in known k j kept)

  counting-Ends :
      (m : Memory) (i : ℕ) → Known name limit m.entry → Ends name limit 16 m (counting i)
  unfolding move
  counting-Ends m i known =
      let n = ((m.heap i).idle_flushes + 1) % u32 in
      let counted : Memory = put i (record (m.heap i) { idle_flushes = n }) m in
      elim (Bool-cases (ltb n limit)) [
        | inl e ↦
            Ends-after name limit 15 m (counting i) counted idle (rw e refl)
              (Ends-idle name limit 15 counted)
        | inr e ↦
            Ends-after name limit 15 m (counting i) counted (deleting i) (rw e refl)
              (deleting-Ends counted i known)
      ]

  clearing-Ends : (m : Memory) (i : ℕ) → Ends name limit 15 m (clearing i)
  unfolding move
  clearing-Ends m i = Ends-idle name limit 14 (put i (record (m.heap i) { detached = false }) m)

  resetting-Ends : (m : Memory) (i : ℕ) → Ends name limit 16 m (resetting i)
  unfolding move
  resetting-Ends m i = clearing-Ends (put i (record (m.heap i) { idle_flushes = 0 }) m) i

  visit-EndsThen :
      (i : ℕ) (entry : Bytes → Option ℕ) → Known name limit entry → EndsThen 17 i visit entry
  unfolding move
  visit-EndsThen i entry known m d kept = elim (Bool-cases (d == 0)) [
    | inl e ↦ elim (Bool-cases (limit == 0)) [
      | inl z ↦
          Ends-after name limit 16 m (latched i d visit) m idle (rw e (rw z refl))
            (Ends-idle name limit 16 m)
      | inr z ↦
          Ends-after name limit 16 m (latched i d visit) m (counting i) (rw e (rw z refl))
            (counting-Ends m i (Known-subst entry m.entry kept known))
    ]
    | inr e ↦
        Ends-after name limit 16 m (latched i d visit) (send (name i) d m) (resetting i) (rw e refl)
          (resetting-Ends (send (name i) d m) i)
  ]

  EndsThen-any :
      (i : ℕ) (k : Then) (entry : Bytes → Option ℕ) → Known name limit entry → EndsThen 17 i k entry
  EndsThen-any i (forward j) entry known m d kept =
      Ends-le name limit 11 17 m (latched i d (forward j)) (omega arith)
        (forward-EndsThen i j entry known m d kept)
  EndsThen-any i visit entry known m d kept = visit-EndsThen i entry known m d kept
  EndsThen-any i prune entry known m d kept =
      Ends-le name limit 10 17 m (latched i d prune) (omega arith)
        (prune-EndsThen i entry known m d kept)

  adding-Ends :
      (m : Memory) (i d : ℕ) → Known name limit m.entry → Ends name limit 10 m (adding i d)
  unfolding move
  adding-Ends m i d known =
      added-Ends name limit (ask (name i) d (put i (add_value d (m.heap i)) m)) known i

  storing-Ends :
      (m : Memory) (i v : ℕ) → Known name limit m.entry → Ends name limit 10 m (storing i v)
  unfolding move
  storing-Ends m i v known =
      added-Ends name limit
        (ask (name i) (minus v (m.heap i).current_value)
          (put i (record (m.heap i) { current_value = v }) m))
        known i

  forwarding-Ends :
      (m : Memory) (j d : ℕ) → Known name limit m.entry → Ends name limit 10 m (forwarding j d)
  unfolding move
  forwarding-Ends m j d known = added-Ends name limit (put j (add_value d (m.heap j)) m) known j

  reading-Ends :
      (m : Memory) (i : ℕ) (k : Then)
      → Known name limit m.entry
      → Ends name limit 20 m (reading i k)
  unfolding move
  reading-Ends m i k known =
      read_value-Ends name limit 17 i k m.entry (EndsThen-any i k m.entry known) m
        (m.heap i).current_value refl

  -- A method of a counter, or a visit of Flush to one, that goes on alone from wherever it stands ends within
  -- 21 operations, where the map holds each counter under its name.
  pub Ends-any : (m : Memory) (p : Pc) → Known name limit m.entry → Ends name limit 21 m p
  Ends-any m idle known = Ends-idle name limit 21 m
  Ends-any m (adding i d) known =
      Ends-le name limit 10 21 m (adding i d) (omega arith) (adding-Ends m i d known)
  Ends-any m (storing i v) known =
      Ends-le name limit 10 21 m (storing i v) (omega arith) (storing-Ends m i v known)
  Ends-any m (forwarding i d) known =
      Ends-le name limit 10 21 m (forwarding i d) (omega arith) (forwarding-Ends m i d known)
  Ends-any m (added i) known =
      Ends-le name limit 9 21 m (added i) (omega arith) (added-Ends name limit m known i)
  Ends-any m (joining i) known =
      Ends-le name limit 8 21 m (joining i) (omega arith) (joining-Ends name limit m known i)
  Ends-any m (reading i k) known =
      Ends-le name limit 20 21 m (reading i k) (omega arith) (reading-Ends m i k known)
  Ends-any m (read_value i v k) known =
      Ends-le name limit 19 21 m (read_value i v k) (omega arith)
        (read_value-Ends name limit 17 i k m.entry (EndsThen-any i k m.entry known) m v refl)
  Ends-any m (swapping i v l k) known =
      swapping-Ends name limit 17 i k m.entry (EndsThen-any i k m.entry known) m v l refl
  Ends-any m (latched i d k) known =
      Ends-le name limit 17 21 m (latched i d k) (omega arith)
        (EndsThen-any i k m.entry known m d refl)
  Ends-any m (resetting i) known =
      Ends-le name limit 16 21 m (resetting i) (omega arith) (resetting-Ends m i)
  Ends-any m (clearing i) known =
      Ends-le name limit 15 21 m (clearing i) (omega arith) (clearing-Ends m i)
  Ends-any m (counting i) known =
      Ends-le name limit 16 21 m (counting i) (omega arith) (counting-Ends m i known)
  Ends-any m (deleting i) known =
      Ends-le name limit 15 21 m (deleting i) (omega arith) (deleting-Ends m i known)
  Ends-any m (marking i) known =
      Ends-le name limit 14 21 m (marking i) (omega arith) (marking-Ends m i known)
  Ends-any m (renewing i) known =
      Ends-le name limit 9 21 m (renewing i) (omega arith) (renewing-Ends m i known)

  -- In every state that any number of writers and one Flush at a time reach, a thread that goes on alone ends
  -- its call, or its visit of a counter, within 21 operations: no call waits for another thread.
  pub alone_finishes :
      (threads : ℕ) (s : System name limit) (t : ℕ)
      → Reach name limit threads s
      → (runs name limit 21 s.mem (s.pc t)).1 ≡ idle
  alone_finishes threads s t r =
      Ends-any s.mem (s.pc t)
        (λ k j h. ((Inv-Reach name limit threads s r).attached.entries k j h).1)
