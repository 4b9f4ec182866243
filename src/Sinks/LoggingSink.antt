-- ===== src/Sinks/LoggingSink.antt =====
-- logging_sink.go, up to the encoding of a line as JSON. `T` is the type of a time stamp, `float` is the
-- conversion of a `uint64` to `float64`, and `format` is `%f`.
use gostats.Prelude.{
  ℕ, ◌≡◌, refl, ap, ◌∙◌, sym, List, [], ◌∷◌, ◌++◌, append-nil, append_assoc, if◌then◌else◌, length,
  map, Option, none, some, Bool-cases, inl, inr,
}
use gostats.Bytes.{Bytes, codes, beq}
use gostats.Names.{lookup}
use gostats.Store.{Call}
use gostats.Sinks.{fold_calls}

pub record LogLine (T : Type 0) : Type 0 where
  pub level : Bytes
  pub ts : T
  pub logger : Bytes
  pub msg : Bytes
  pub json : List (Bytes × Bytes)

-- What was written to `writer`; `clock` gives the time stamps of the lines to come, by their number.
pub record LoggingSink (T : Type 0) : Type 0 where
  pub lines : List (LogLine T)
  pub clock : ℕ → T

abbrev pub logger_name : Bytes
logger_name = codes "gostats.loggingsink"

-- `enc.Encode`
abbrev pub encode : {T : Type 0} → LogLine T → LoggingSink T → LoggingSink T
encode l s = record s { lines = s.lines ++ l ∷ [] }

unfoldable pub log_message : {T : Type 0} → Bytes → Bytes → LoggingSink T → LoggingSink T
log_message level msg s =
    encode
      (record {
        level = level;
        ts = s.clock (length s.lines);
        logger = logger_name;
        msg = msg;
        json = [];
      })
      s

-- `Errorf` and `Warnf`, of a message that is formatted.
unfoldable pub log_error : {T : Type 0} → Bytes → LoggingSink T → LoggingSink T
unfolding log_message
log_error msg s = log_message (codes "error") msg s

unfoldable pub log_warning : {T : Type 0} → Bytes → LoggingSink T → LoggingSink T
unfolding log_message
log_warning msg s = log_message (codes "warn") msg s

abbrev pub name_told : Bytes → Option Bytes
name_told name = if beq name [] then none else some name

map-append_one :
    {A B : Type 0} (f : A → B) (xs : List A) (x : A) → map f (xs ++ x ∷ []) ≡ map f xs ++ f x ∷ []
map-append_one f [] x = refl
map-append_one f (y ∷ xs) x = ap (◌∷◌ (f y)) (map-append_one f xs x)

module _ {F : Type 0} (float : ℕ → F) (format : F → Bytes) where
  abbrev pub telling : Call F → Option Bytes × Option Bytes × Option Bytes
  telling (Call.flush_counter name value) =
      (some (codes "counter"), some (format (float value)), name_told name)
  telling (Call.flush_gauge name value) =
      (some (codes "gauge"), some (format (float value)), name_told name)
  telling (Call.flush_timer name value) =
      (some (codes "timer"), some (format value), name_told name)
  telling Call.flush_all = (some (codes "all stats"), some (format (float 0)), none)

module _ {T F : Type 0} (float : ℕ → F) (format : F → Bytes) where
  -- The line of `log`.
  abbrev pub flush_line : Bytes → Bytes → F → T → LogLine T
  flush_line name typ value ts = record {
    level = codes "debug";
    ts = ts;
    logger = logger_name;
    msg = codes "flushing " ++ typ;
    json =
        (codes "type", typ)
        ∷ (codes "value", format value)
        ∷ (if beq name [] then [] else (codes "name", name) ∷ []);
  }

  unfoldable pub log : Bytes → Bytes → F → LoggingSink T → LoggingSink T
  log name typ value s = encode (flush_line name typ value (s.clock (length s.lines))) s

  -- `FlushCounter`, `FlushGauge`, `FlushTimer` and `Flush`
  unfoldable pub logging_receive : Call F → LoggingSink T → LoggingSink T
  unfolding log
  logging_receive (Call.flush_counter name value) s = log name (codes "counter") (float value) s
  logging_receive (Call.flush_gauge name value) s = log name (codes "gauge") (float value) s
  logging_receive (Call.flush_timer name value) s = log name (codes "timer") value s
  logging_receive Call.flush_all s = log [] (codes "all stats") (float 0) s

  -- What a line says of a call: its type, its value and, unless it is empty, its name.
  abbrev pub told : LogLine T → Option Bytes × Option Bytes × Option Bytes
  told l =
      (lookup (codes "type") l.json, lookup (codes "value") l.json, lookup (codes "name") l.json)

  told-flush_line :
      (name typ : Bytes) (value : F) (ts : T)
      → told (flush_line name typ value ts) ≡ (some typ, some (format value), name_told name)
  unfolding beq
  told-flush_line name typ value ts = elim (Bool-cases (beq name [])) [
    | inl e ↦ rw e refl
    | inr e ↦ rw e refl
  ]

  logging_receive-tells :
      (c : Call F) (s : LoggingSink T)
      → (l : LogLine T) × ((logging_receive c s).lines ≡ s.lines ++ l ∷ [])
        × (told l ≡ telling float format c)
  unfolding logging_receive log beq
  logging_receive-tells (Call.flush_counter name value) s =
      (_, refl, told-flush_line name (codes "counter") (float value) (s.clock (length s.lines)))
  logging_receive-tells (Call.flush_gauge name value) s =
      (_, refl, told-flush_line name (codes "gauge") (float value) (s.clock (length s.lines)))
  logging_receive-tells (Call.flush_timer name value) s =
      (_, refl, told-flush_line name (codes "timer") value (s.clock (length s.lines)))
  logging_receive-tells Call.flush_all s =
      (_, refl, told-flush_line [] (codes "all stats") (float 0) (s.clock (length s.lines)))

  -- The logging sink writes one line for each call of a store, in their order, and the line has the type of
  -- the call, its value and its name, where that is not empty.
  pub logging_sink-tells :
      (calls : List (Call F)) (s : LoggingSink T)
      → map told (fold_calls logging_receive calls s).lines
        ≡ map told s.lines ++ map (telling float format) calls
  logging_sink-tells [] s = sym (append-nil (map told s.lines))
  logging_sink-tells (c ∷ calls) s =
      let (l, e, tells) = logging_receive-tells c s in
      logging_sink-tells calls (logging_receive c s)
      ∙ ap (λ x. map told x ++ map (telling float format) calls) e
      ∙ ap (λ x. x ++ map (telling float format) calls) (map-append_one told s.lines l)
      ∙ append_assoc (map told s.lines) (told l ∷ []) (map (telling float format) calls)
      ∙ ap (λ x. map told s.lines ++ x ∷ map (telling float format) calls) tells
