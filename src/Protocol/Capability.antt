-- ===== src/Protocol/Capability.antt =====
-- The positions of the `CapabilityFlag` bits of internal/client/types.go.
use inlets.Common.{ℕ}

abbrev pub compression : ℕ
compression = 1

abbrev pub streaming : ℕ
streaming = 2

abbrev pub flow_control : ℕ
flow_control = 3

abbrev pub http_streaming : ℕ
http_streaming = 5

abbrev pub tcp_over_ws : ℕ
tcp_over_ws = 6
