-- ===== src/Store/Flush/TimerUse.antt =====
-- The timers' callback of `Flush` in stats.go, for a timer that was used.
use gostats.Prelude.{
  ℕ, ◌≡◌, refl, ◌∙◌, ap, true, false, some, List, [], ◌∷◌, ◌++◌, get_elem?, get_elem?-set_there,
  set-set, Run, ret, ◌>>=◌,
}
use gostats.Bytes.{Bytes}
use gostats.Store.{Timer, Call, Store}
use gostats.Store.Registry.{add_timer_value}
use gostats.Store.Flush.{write_timer, visit_timer}

-- What a timer is after a flush that found it active.
abbrev pub rested : Timer → Timer
rested t = record t { active = false; idle_flushes = 0 }

module _ {F : Type 0} where
  abbrev pub recorded : Bytes → F → Store F → Store F
  recorded name value s = record s { calls = s.calls ++ Call.flush_timer name value ∷ [] }

  visit_timer-active :
      (key : Bytes) (i : ℕ) (t : Timer) (s : Store F)
      → get_elem? s.timer_heap i ≡ some (record t { active = true })
      → visit_timer key i s ≡ ret (write_timer i (rested t) s)
  unfolding visit_timer
  visit_timer-active key i t s e = rw (e, visit_timer) refl

  add_timer_value_lem :
      (i : ℕ) (value : F) (t : Timer) (s : Store F)
      → get_elem? s.timer_heap i ≡ some t
      → add_timer_value i value s
        ≡ ret (write_timer i (record t { active = true }) (recorded t.name value s))
  unfolding add_timer_value
  add_timer_value_lem i value t s e = rw (e, add_timer_value) refl

  -- `AddValue` of a timer that exists, whether or not the map of timers holds it, and then the callback that
  -- `Flush` calls for a timer, for any key: the value is sent under the timer's name, the mark of use is
  -- cleared, and the idle flushes start again at 0, however many there were and however few are allowed. The map
  -- of timers stays as it was: an entry is not deleted, and a timer that was pruned is not put back.
  pub visit_timer-add_timer_value :
      (key : Bytes) (i : ℕ) (value : F) (t : Timer) (s : Store F)
      → get_elem? s.timer_heap i ≡ some t
      → (add_timer_value i value s >>= visit_timer key i)
        ≡ ret (write_timer i (rested t) (recorded t.name value s))
  visit_timer-add_timer_value key i value t s e =
      let used : Timer = record t { active = true } in
      let s1 : Store F = recorded t.name value s in
      ap (λ (r : Run (Store F)). r >>= visit_timer key i) (add_timer_value_lem i value t s e)
      ∙ visit_timer-active key i t (write_timer i used s1)
          (get_elem?-set_there s.timer_heap i t used e)
      ∙ ap (λ (h : List Timer). ret (record s1 { timer_heap = h }))
          (set-set s.timer_heap i used (rested t))
