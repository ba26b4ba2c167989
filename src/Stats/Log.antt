-- ===== src/Stats/Log.antt =====
-- The log of the calls of the container, and the sums that the counters are to be.
use inlets.Common.{
  List, [], ◌∷◌, Bool, true, false, Option, none, some, Bytes, bytes_key, Bytes-discrete, ite,
}
use inlets.Common.Int.{ℤ, pos, ◌+ℤ◌}
use inlets.Common.Dict
use inlets.Stats.{
  Clock, TrafficStats, TrafficStatsData, add_upload_bytes, add_download_bytes, add_connection,
  add_request, reset, set_start_time, set_end_time,
}

pub data Counter : Type 0 where
  uploads : Counter
  downloads : Counter
  connections : Counter
  requests : Counter

abbrev pub value : Counter → TrafficStats → ℤ
value uploads t = t.upload_bytes
value downloads t = t.download_bytes
value connections t = t.connections
value requests t = t.requests

-- Calls of the container, by the client.
pub data Call : Type 0 where
  to_upload : Bytes → ℤ → Clock → Call
  to_download : Bytes → ℤ → Clock → Call
  to_connect : Bytes → Clock → Call
  to_request : Bytes → Clock → Call
  to_reset : Bytes → Clock → Call
  to_start : Bytes → Clock → Call
  to_end : Bytes → Clock → Call

unfoldable pub step : TrafficStatsData → Call → TrafficStatsData
step s (to_upload id bytes clock) = add_upload_bytes s id bytes clock
step s (to_download id bytes clock) = add_download_bytes s id bytes clock
step s (to_connect id clock) = add_connection s id clock
step s (to_request id clock) = add_request s id clock
step s (to_reset id clock) = reset s id clock
step s (to_start id clock) = set_start_time s id clock
step s (to_end id clock) = set_end_time s id clock

unfoldable pub run : TrafficStatsData → List Call → TrafficStatsData
run s [] = s
run s (call ∷ calls) = run (step s call) calls

abbrev pub counted : Counter → Option TrafficStats → ℤ
counted k none = pos 0
counted k (some t) = value k t

-- a counter of a client, or of the server where the client is empty; a client that has no entry
-- has counted nothing
unfoldable pub count : Counter → Bytes → TrafficStatsData → ℤ
count k [] s = value k s.global
count k (b ∷ id) s = counted k (Dict.get (b ∷ id) s.by_client_id)

-- one counter is another
abbrev pub same : Counter → Counter → Bool
same uploads uploads = true
same downloads downloads = true
same connections connections = true
same requests requests = true
same uploads k = false
same downloads k = false
same connections k = false
same requests k = false

-- a sum with an amount, where it is one of this counter
abbrev pub plus : Bool → ℤ → ℤ → ℤ
plus true n sum = sum +ℤ n
plus false n sum = sum

-- a sum after an amount for the client `j`: the server counts every client's
abbrev pub added : Bytes → Bytes → Bool → ℤ → ℤ → ℤ
added [] j b n sum = plus b n sum
added (c ∷ id) j b n sum = ite (Bytes-discrete j (c ∷ id)) (plus b n sum) sum

-- a sum after a reset: that of everything ends all sums, a client's its own
abbrev pub cleared : Bytes → Bytes → ℤ → ℤ
cleared id [] sum = pos 0
cleared [] (c ∷ j) sum = sum
cleared (b ∷ id) (c ∷ j) sum = ite (Bytes-discrete (c ∷ j) (b ∷ id)) (pos 0) sum

-- a sum after one more call
unfoldable pub sum_after : Counter → Bytes → ℤ → Call → ℤ
sum_after k id sum (to_upload j n clock) = added id j (same k uploads) n sum
sum_after k id sum (to_download j n clock) = added id j (same k downloads) n sum
sum_after k id sum (to_connect j clock) = added id j (same k connections) (pos 1) sum
sum_after k id sum (to_request j clock) = added id j (same k requests) (pos 1) sum
sum_after k id sum (to_reset j clock) = cleared id j sum
sum_after k id sum (to_start j clock) = sum
sum_after k id sum (to_end j clock) = sum

-- the sum of a log of calls
unfoldable pub sum_of : Counter → Bytes → ℤ → List Call → ℤ
sum_of k id sum [] = sum
sum_of k id sum (call ∷ calls) = sum_of k id (sum_after k id sum call) calls
