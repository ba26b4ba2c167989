-- ===== src/Stream.antt =====
-- internal/server/protocol/stream_manager.go, the type `Stream`: chunks of one message are put
-- back in order as they arrive. A method holds the stream's lock throughout, so it is one step;
-- the call of `OnComplete` that it makes comes back beside the new state. `C` is the type of the
-- callbacks. Times are numbers, given by the caller where the code reads the clock.
pub mod Loop
pub mod Reassembly
pub mod Arrival
pub mod Ends
mod Tests
use inlets.Common.{
  ℕ, zero, suc, ◌+◌, ◌%◌, ◌^◌, [], ◌++◌, Bool, true, false, ◌&&◌, Option, none, some, Bytes, ℕ_key,
  length, leb, if◌then◌else◌, Outcome, ok, err, panic, ◌>>=◌,
}
use inlets.Common.Int.{ℤ, pos, negsuc, pos_part, ltb_ℤ}
use inlets.Common.Dict
use inlets.Common.Dict.{Dict}

pub data StreamState : Type 0 where
  initializing active paused completed errored : StreamState

pub record StreamChunk : Type 0 where
  pub sequence : ℕ
  pub payload : Bytes
  pub is_last : Bool

-- `chunks` is `none` where the map is nil: after `Destroy`.
pub record Stream (C : Type 0) : Type 0 where
  pub id : Bytes
  pub state : StreamState
  pub chunks : Option (Dict ℕ StreamChunk)
  pub expected_sequence : ℕ
  pub total_chunks : ℤ
  pub on_complete : Option C
  pub on_error : Option C
  pub completed_data : Option Bytes
  pub created_at : ℕ
  pub last_activity : ℕ

-- The model's fuel ran out.
pub data Fault : Type 0 where
  out_of_fuel : Fault

-- A call of a callback on the data of a whole message.
pub record Delivery (C : Type 0) : Type 0 where
  pub callback : C
  pub message : Bytes

abbrev pub Result : Type 0 → Type 0
Result C = Stream C × Option (Delivery C)

unfoldable pub is_closed : StreamState → Bool
is_closed completed = true
is_closed errored = true
is_closed _ = false

module _ {C : Type 0} where
  unfoldable pub new_stream : Bytes → ℕ → Stream C
  new_stream id now = record {
    id = id;
    state = initializing;
    chunks = some [];
    expected_sequence = 0;
    total_chunks = negsuc 0;
    on_complete = none;
    on_error = none;
    completed_data = none;
    created_at = now;
    last_activity = now;
  }

  -- what `CreateStream` and `EnsureStream` make
  unfoldable pub active_stream : Bytes → ℕ → Option C → Option C → Stream C
  unfolding new_stream
  active_stream id now on_complete on_error = record (new_stream id now) {
    state = active;
    on_complete = on_complete;
    on_error = on_error;
  }

  -- the merge of one chunk, and `ExpectedSequence++` on a `uint32`
  unfoldable pub merge_chunk : Stream C → Dict ℕ StreamChunk → StreamChunk → Stream C
  merge_chunk s chunks chunk = record s {
    chunks = some (Dict.remove s.expected_sequence chunks);
    completed_data =
        some
          (elim s.completed_data [ none ↦ chunk.payload | some merged ↦ merged ++ chunk.payload ]);
    expected_sequence = (s.expected_sequence + 1) % 2 ^ 32;
  }

  unfoldable pub deliver : Option C → Option Bytes → Option (Delivery C)
  deliver (some callback) (some message) = some (record { callback = callback; message = message })
  deliver (some callback) none = none
  deliver none message = none

  unfoldable pub complete : Stream C → Result C
  complete s = (record s { state = completed }, deliver s.on_complete s.completed_data)

  -- `s.TotalChunks > 0 && s.ExpectedSequence >= uint32(s.TotalChunks)`
  unfoldable pub total_reached : Stream C → Bool
  total_reached s =
      ltb_ℤ (pos 0) s.total_chunks && leb (pos_part s.total_chunks % 2 ^ 32) s.expected_sequence

  unfoldable pub try_reassemble : ℕ → Stream C → Outcome Fault (Result C)
  try_reassemble zero s = err out_of_fuel
  try_reassemble (suc fuel) s = elim s.chunks [
    | none ↦ ok (s, none)
    | some chunks ↦ elim (Dict.get s.expected_sequence chunks) [
      | none ↦ ok (s, none)
      | some chunk ↦
          let s' = merge_chunk s chunks chunk in
          let rest = try_reassemble fuel s' in
          if chunk.is_last
          then ok (complete s')
          else if total_reached s'
          then ok (complete s')
          else rest
    ]
  ]

  -- rounds of the loop that the entries of the map allow, and one more to find no entry
  unfoldable pub fuel_for : Stream C → ℕ
  fuel_for s = elim s.chunks [ none ↦ 1 | some chunks ↦ suc (length chunks) ]

  -- `s.Chunks[sequence] = …` on a nil map panics
  unfoldable pub store_chunk : Stream C → ℕ → Bytes → Bool → ℕ → Outcome Fault (Stream C)
  store_chunk s sequence payload is_last now = elim s.chunks [
    | none ↦ panic
    | some chunks ↦ ok (record s {
      chunks = some (
          Dict.put sequence (record { sequence = sequence; payload = payload; is_last = is_last })
            chunks);
      total_chunks = if is_last then pos (sequence + 1) else s.total_chunks;
      last_activity = now;
    })
  ]

  unfoldable pub add_chunk : Stream C → ℕ → Bytes → Bool → ℕ → Outcome Fault (Result C)
  add_chunk s sequence payload is_last now =
      if is_closed s.state
      then ok (s, none)
      else do s' ← store_chunk s sequence payload is_last now; try_reassemble (fuel_for s') s'

  unfoldable pub pause : Stream C → Stream C
  pause s = elim s.state [ active ↦ record s { state = paused } | _ ↦ s ]

  unfoldable pub resume : Stream C → Outcome Fault (Result C)
  resume s = elim s.state [
    | paused ↦ let s' = record s { state = active } in try_reassemble (fuel_for s') s'
    | _ ↦ ok (s, none)
  ]

  unfoldable pub destroy : Stream C → Stream C
  destroy s = record s { chunks = none; completed_data = none; on_complete = none; on_error = none }
