-- ===== src/Store/Writes.antt =====
-- `Add` and `Set` of a counter in stats.go, for a counter that is registered, pruned, or replaced.
use gostats.Prelude.{
  ℕ, ◌+◌, ◌-◌, ◌%◌, ◌<◌, ◌≡◌, refl, ap, subst, true, Option, some, List, arith, if◌then◌else◌,
  Bool-cases, inl, inr, get_elem?, get_elem?-set_there, ret, ◌>>=◌,
}
use gostats.Bytes.{Bytes, beq}
use gostats.Store.{u64, Counter, Store}
use gostats.Store.Counters.{
  pending, add_value, must_rejoin, write, rejoin, rejoin_fuel, maybe_rejoin, add, set_value,
}
use gostats.Store.Labels.{IsCounter, IsValid, Labelled-get, owed-set}
use gostats.Store.Flush.Conserve.{read_ret}
use gostats.Store.Rejoin.{
  pending-add_value, add_value-IsCounter, total, write-IsValid, Counts, rejoin-Counts,
}

module _ {F : Type 0} (labels : List Bytes) where
  maybe_rejoin_lem :
      (i : ℕ) (c : Counter) (s : Store F)
      → get_elem? s.counter_heap i ≡ some c
      → maybe_rejoin i s ≡ (if must_rejoin c then rejoin rejoin_fuel i s else ret s)
  unfolding maybe_rejoin
  maybe_rejoin_lem i c s e =
      ap
        (λ (o : Option Counter).
          read_ret o >>= λ d. if must_rejoin d then rejoin rejoin_fuel i s else ret s)
        e

  -- What `Add` and `Set` do after they wrote the counter.
  write-Counts :
      (i : ℕ) (l : Bytes) (delta : ℕ) (old new : Counter) (s : Store F)
      → IsValid labels s
      → get_elem? labels i ≡ some l
      → get_elem? s.counter_heap i ≡ some old
      → IsCounter l new
      → pending new ≡ (pending old + delta) % u64
      → Counts labels l delta s (maybe_rejoin i (write i new s))
  write-Counts i l delta old new s v el eh hn grown =
      let s1 : Store F = write i new s in
      let v1 = write-IsValid labels i l new s v el hn in
      let there : get_elem? s1.counter_heap i ≡ some new =
        get_elem?-set_there s.counter_heap i old new eh in
      let more : (n : Bytes)
          → total labels n s1 % u64 ≡ (total labels n s + (if beq l n then delta else 0)) % u64 =
        λ n.
          let trade = owed-set n labels s.counter_heap i l old new el eh in
          elim (Bool-cases (beq l n)) [
            | inl g ↦ let t1 = rw g at trade in rw g (omega (arith, t1, grown))
            | inr g ↦ let t1 = rw g at trade in rw g (omega (arith, t1))
          ] in
      rw (maybe_rejoin_lem i new s1 there) (elim (Bool-cases (must_rejoin new)) [
        | inr m ↦ rw m (s1, refl, v1, refl, more)
        | inl m ↦
            let has : new.has_store ≡ true = ground arith in
            let (s2, e2, v2, calls, same) =
              rejoin-Counts labels 0 i l new s1 v1 el there hn (hn.2 has) in
            rw m (
              s2,
              e2,
              v2,
              calls,
              λ n. let more_n = more n in let same_n = same n in ground (arith, more_n, same_n),
            )
      ])

  -- `Add` ends, keeps the store valid and sends nothing. In `uint64` it adds `delta` to the total of the
  -- counter's name, whether the counter is registered, was pruned, or was pruned and replaced, and to no
  -- other total.
  pub add-Counts :
      (i : ℕ) (l : Bytes) (delta : ℕ) (s : Store F)
      → IsValid labels s
      → get_elem? labels i ≡ some l
      → Counts labels l delta s (add i delta s)
  unfolding add
  add-Counts i l delta s v el =
      let (c, eh, hc) = Labelled-get labels s.counter_heap i l v.heap el in
      rw (eh, add, ◌>>=◌)
        (write-Counts i l delta c (add_value delta c) s v el eh (add_value-IsCounter l delta c hc)
          (pending-add_value delta c hc.0 hc.1))

  -- `Set` ends, keeps the store valid and sends nothing. In `uint64` it adds to the total of the counter's
  -- name the distance from the old value to the new one, and nothing to any other total.
  pub set_value-Counts :
      (i : ℕ) (l : Bytes) (value : ℕ) (c : Counter) (s : Store F)
      → IsValid labels s
      → get_elem? labels i ≡ some l
      → get_elem? s.counter_heap i ≡ some c
      → value < u64
      → Counts labels l ((value + u64 - c.current_value) % u64) s (set_value i value s)
  unfolding set_value
  set_value-Counts i l value c s v el eh bound =
      let (d, ed, hd) = Labelled-get labels s.counter_heap i l v.heap el in
      let same : d ≡ c = cc in
      let hc : IsCounter l c = subst (λ b. IsCounter l b) same hd in
      rw (eh, set_value, ◌>>=◌)
        (write-Counts i l ((value + u64 - c.current_value) % u64) c
          (record c { current_value = value }) s v el eh (bound, hc.1, hc.2)
          (omega (arith, hc.0, hc.1)))
