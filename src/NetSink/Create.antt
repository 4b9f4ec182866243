-- ===== src/NetSink/Create.antt =====
-- `NewNetSink` of net_sink.go and its options.
use gostats.Prelude.{
  ℕ, ◌+◌, ◌*◌, ◌/◌, ◌^◌, ◌≤◌, ◌<◌, ◌≡◌, refl, false, ◌||◌, Bool-cases, inl, inr, ◌⊎◌, List, [], ◌∷◌,
  if◌then◌else◌, arith,
}
use gostats.Bytes.{Bytes, codes, beq}
use gostats.Settings.{Settings, ℤ}
use gostats.NetSink.Run.{Loop}
use gostats.NetSink.Run.Stream.Rounds.{IsReady}

-- A logger is a number: 0 is the one that the sink makes.
pub record Config : Type 0 where
  pub conf : Settings
  pub log : ℕ

pub data SinkOption : Type 0 where
  with_statsd_host : Bytes → SinkOption
  with_statsd_protocol : Bytes → SinkOption
  with_statsd_port : ℤ → SinkOption
  with_logger : ℕ → SinkOption

unfoldable pub apply : SinkOption → Config → Config
apply (with_statsd_host host) c = record c { conf = record c.conf { statsd_host = host } }
apply (with_statsd_protocol protocol) c = record c {
  conf = record c.conf { statsd_protocol = protocol };
}
apply (with_statsd_port port) c = record c { conf = record c.conf { statsd_port = port } }
apply (with_logger log) c = record c { log = log }

unfoldable pub apply_all : List SinkOption → Config → Config
unfolding apply
apply_all [] c = c
apply_all (o ∷ opts) c = apply_all opts (apply o c)

-- `defaultBufferSizeTCP`, `defaultBufferSizeUDP` and `approxMaxMemBytes`
abbrev pub default_buffer_size_tcp : ℕ
default_buffer_size_tcp = 2 ^ 16

abbrev pub default_buffer_size_udp : ℕ
default_buffer_size_udp = 1432

abbrev pub approx_max_mem_bytes : ℕ
approx_max_mem_bytes = 2 ^ 22

unfoldable pub buffer_size : Bytes → ℕ
buffer_size protocol =
    if beq protocol (codes "udp") || beq protocol (codes "udp4") || beq protocol (codes "udp6")
    then default_buffer_size_udp
    else default_buffer_size_tcp

-- The sink, its configuration and its loop, which has not begun.
unfoldable pub new_net_sink : Settings → List SinkOption → Config × Loop
unfolding apply_all buffer_size
new_net_sink settings opts =
    let config = apply_all opts (record { conf = settings; log = 0 }) in
    let size = buffer_size config.conf.statsd_protocol in
    (
      config,
      record {
        sink = record {
          outc = [];
          capacity = approx_max_mem_bytes / size;
          buffered = [];
          size = size;
          failed = false;
          dropped_bytes = 0;
          logs = [];
        };
        connected = false;
        retryc = [];
        do_flush = [];
        answered = [];
        reconnect_failed = false;
        delivered = [];
      },
    )

buffer_size-cases :
    (protocol : Bytes) → (buffer_size protocol ≡ 1432) ⊎ (buffer_size protocol ≡ 65536)
unfolding buffer_size
buffer_size-cases protocol =
    elim (Bool-cases
      (beq protocol (codes "udp") || beq protocol (codes "udp4") || beq protocol (codes "udp6"))) [
        | inl e ↦ inl (rw e refl)
        | inr e ↦ inr (rw e refl)
      ]

-- A new sink, with whatever settings and options: its channel has room for 64 buffers at least, the buffers
-- that fill the channel have 4 MiB at most, one more would not, and the loop can begin.
pub new_net_sink-bounds :
    (settings : Settings) (opts : List SinkOption)
    → let s = (new_net_sink settings opts).1 in
      (64 ≤ s.sink.capacity)
      × (s.sink.capacity * s.sink.size ≤ approx_max_mem_bytes)
      × (approx_max_mem_bytes < (s.sink.capacity + 1) * s.sink.size)
      × IsReady s
unfolding new_net_sink
new_net_sink-bounds settings opts =
    let ready : IsReady (new_net_sink settings opts).1 = record {
      one = omega arith;
      sound = refl;
    } in
    elim (buffer_size-cases (new_net_sink settings opts).0.conf.statsd_protocol) [
      | inl e ↦ (rw e (omega arith), rw e (omega arith), rw e (omega arith), ready)
      | inr e ↦ (rw e (omega arith), rw e (omega arith), rw e (omega arith), ready)
    ]
