-- ===== src/Transfer/Tests.antt =====
-- "abcdefg" in chunks of three bytes, the last chunk first.
use inlets.Common.{
  ℕ, zero, suc, List, [], ◌∷◌, ◌≡◌, refl, ◌<◌, true, false, some, none, Bytes, codes, All, ok,
  arith,
}
use inlets.Common.Int.{pos}
use inlets.Stream.{Stream, active_stream, completed}
use inlets.Stream.Reassembly.{Part, IsPart}
use inlets.Stream.Arrival.{Arrived, add_chunks}
use inlets.Manager.{
  StreamManager, new_stream_manager, effective_size, split_into_chunks, split_loop,
}
use inlets.Transfer.{split-reassembles}

abbrev sender : StreamManager ℕ
sender = new_stream_manager (pos 3)

abbrev message : Bytes
message = codes "abcdefg"

abbrev chunks : List Bytes
chunks = codes "abc" ∷ codes "def" ∷ codes "g" ∷ []

sender_size : effective_size sender (pos 0) ≡ pos 3
unfolding effective_size new_stream_manager
sender_size = refl

splits : split_into_chunks 8 sender message (pos 0) ≡ ok chunks
unfolding split_into_chunks effective_size new_stream_manager split_loop
splits = refl

abbrev last_first : List Part
last_first =
    record { sequence = 2; payload = codes "g"; is_last = true; arrival = 1 }
    ∷ record { sequence = 0; payload = codes "abc"; is_last = false; arrival = 2 }
    ∷ record { sequence = 1; payload = codes "def"; is_last = false; arrival = 3 }
    ∷ []

last_first-IsPart : All (IsPart {C = ℕ} chunks 7) last_first
last_first-IsPart = (
  record { found = refl; last = refl },
  (record { found = refl; last = refl }, (record { found = refl; last = refl }, tt)),
)

all-Arrived : (i : ℕ) → i < 3 → Arrived i last_first
all-Arrived zero h = ground arith
all-Arrived (suc zero) h = ground arith
all-Arrived (suc (suc zero)) h = ground arith
all-Arrived (suc (suc (suc i))) h = absurd (omega arith)

split-reassembles_example :
    (s : Stream ℕ) × (add_chunks (active_stream (codes "r") 0 (some 7) none) last_first
      ≡ ok (s, record { callback = 7; message = message } ∷ []))
    × (s.state ≡ completed)
split-reassembles_example =
    split-reassembles sender message (pos 0) 3 8 chunks 7 (codes "r") 0 none last_first sender_size
      (omega arith) (omega arith) splits (omega arith) (omega arith) last_first-IsPart all-Arrived
