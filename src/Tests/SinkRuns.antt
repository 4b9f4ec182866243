-- ===== src/Tests/SinkRuns.antt =====
-- Runs and instances for net_sink.go.
use gostats.Prelude.{◌≡◌, refl, false, [], ◌∷◌, ◌++◌, inl}
use gostats.Bytes.{Bytes, codes, decimal}
use gostats.NetSink.{
  NetSink, handle_flush_error_size, handle_flush_error, write_buffer, stat_line, counter_suffix,
  flush_counter,
}
use gostats.NetSink.Lines.{HoldsLines, IsStat, write_buffer-HoldsLines}

abbrev line : Bytes
line = codes "a:5|c" ++ 10 ∷ []

-- A small sink that holds one counter and whose channel has room for one buffer.
abbrev sink : NetSink
sink = record {
  outc = [];
  capacity = 1;
  buffered = line;
  size = 8;
  failed = false;
  dropped_bytes = 0;
  logs = [];
}

stat_line-line : stat_line (codes "a") counter_suffix 5 ≡ line
unfolding stat_line decimal
stat_line-line = refl

sink-HoldsLines : HoldsLines IsStat sink
unfolding stat_line decimal
sink-HoldsLines = record {
  sound = refl;
  sent = tt;
  held = (line ∷ [], ((codes "a", 5, inl refl), tt), refl);
}

-- The held line goes to the channel; the next one finds it full and is dropped later.
flush_counter-moves :
    flush_counter (codes "b") 12 sink
    ≡ record sink { outc = line ∷ []; buffered = codes "b:12|c" ++ 10 ∷ [] }
unfolding flush_counter write_buffer handle_flush_error decimal
flush_counter-moves = refl

flush_counter-drops :
    flush_counter (codes "c") 1 (flush_counter (codes "b") 12 sink) ≡ record sink {
      outc = line ∷ [];
      buffered = codes "c:1|c" ++ 10 ∷ [];
      dropped_bytes = 7;
      logs = 7 ∷ [];
    }
unfolding flush_counter write_buffer handle_flush_error decimal
flush_counter-drops = refl

-- What is logged goes by the wrong side of the comparison: a reset that passes 32 KB logs nothing.
handle_flush_error_size-passes :
    (handle_flush_error_size 100 (record sink { dropped_bytes = 32700 })).logs ≡ []
unfolding handle_flush_error_size
handle_flush_error_size-passes = refl

write_buffer-HoldsLines_example : HoldsLines IsStat (write_buffer line sink)
unfolding stat_line decimal
write_buffer-HoldsLines_example =
    write_buffer-HoldsLines IsStat line sink (codes "a", 5, inl refl) sink-HoldsLines
