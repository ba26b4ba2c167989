-- ===== src/Manager.antt =====
-- internal/server/protocol/stream_manager.go, the type `StreamManager`: the streams of a connection
-- by id, their creation, removal and expiry, and the split of a message into chunks. Each access
-- to the map is one step under the manager's lock; `cleanup` is run without other goroutines'
-- steps in between. A stream that is removed is destroyed too, which only a goroutine that still
-- holds it could see; the manager's map does not show it.
pub mod Chunks
pub mod Expiry
pub mod Holding
mod Tests
use inlets.Common.{
  ℕ, zero, suc, ◌+◌, ◌-◌, ◌*◌, ◌%◌, ◌^◌, min, List, [], ◌∷◌, ◌++◌, Bool, true, false, ◌&&◌, ◌||◌,
  not, Option, none, some, Bytes, bytes_key, length, take, drop, ltb, if◌then◌else◌, Outcome, ok,
  err, panic, ◌>>=◌, map,
}
use inlets.Common.Int.{ℤ, pos, negsuc, ◌-ℤ◌, ltb_ℤ}
use inlets.Common.Dict
use inlets.Common.Dict.{Dict}
use inlets.Stream.{
  Stream, StreamState, errored, is_closed, active_stream, Fault, out_of_fuel, Delivery,
}
use inlets.Stream

-- `streams` is `none` where the map is nil: after `Destroy`. `stopped` says that the channel
-- `stopCleanup` is closed. Durations are in nanoseconds.
pub record StreamManager (C : Type 0) : Type 0 where
  pub streams : Option (Dict Bytes (Stream C))
  pub default_chunk_size : ℤ
  pub max_stream_age : ℤ
  pub stall_timeout : ℤ
  pub stopped : Bool

-- A call of `OnError` for the stream `id`.
pub record ErrorCall (C : Type 0) : Type 0 where
  pub callback : C
  pub id : Bytes

abbrev minutes : ℕ → ℤ
minutes n = pos (n * 60 * 10 ^ 9)

-- the loop of `SplitIntoChunks` for a step that is not negative
unfoldable pub split_loop : ℕ → Bytes → ℕ → ℕ → Outcome Fault (List Bytes)
split_loop zero payload size i = err out_of_fuel
split_loop (suc fuel) payload size i =
    let rest = split_loop fuel payload size (i + size) in
    if ltb i (length payload)
    then (do
      chunks ← rest
      ok (take (min (i + size) (length payload) - i) (drop i payload) ∷ chunks))
    else ok []

module _ {C : Type 0} where
  unfoldable pub new_stream_manager : ℤ → StreamManager C
  new_stream_manager size = record {
    streams = some [];
    default_chunk_size = size;
    max_stream_age = minutes 5;
    stall_timeout = minutes 2;
    stopped = false;
  }

  unfoldable pub effective_size : StreamManager C → ℤ → ℤ
  effective_size sm chunk_size =
      if ltb_ℤ (pos 0) chunk_size then chunk_size else sm.default_chunk_size

  -- with a negative step the first slice, `data[0:size]`, panics
  unfoldable pub split_into_chunks : ℕ → StreamManager C → Bytes → ℤ → Outcome Fault (List Bytes)
  unfolding split_loop
  split_into_chunks fuel sm payload chunk_size = elim (effective_size sm chunk_size) [
    | pos size ↦ split_loop fuel payload size 0
    | negsuc _ ↦ if ltb 0 (length payload) then panic else ok []
  ]

  -- `sm.streams[id]`, also of a nil map
  unfoldable pub get_stream : StreamManager C → Bytes → Option (Stream C)
  get_stream sm id = elim sm.streams [ none ↦ none | some m ↦ Dict.get id m ]

  -- `sm.streams[id] = s`
  unfoldable pub set_stream : StreamManager C → Bytes → Stream C → Outcome Fault (StreamManager C)
  set_stream sm id s = elim sm.streams [
    | none ↦ panic
    | some m ↦ ok (record sm { streams = some (Dict.put id s m) })
  ]

  unfoldable pub create_stream :
      StreamManager C → Bytes → ℕ → Option C → Option C → Outcome Fault (StreamManager C)
  create_stream sm id now on_complete on_error =
      set_stream sm id (active_stream id now on_complete on_error)

  unfoldable pub ensure_stream :
      StreamManager C → Bytes → ℕ → Option C → Option C → Outcome Fault (StreamManager C)
  ensure_stream sm id now on_complete on_error = elim (get_stream sm id) [
    | some s ↦ ok sm
    | none ↦ set_stream sm id (active_stream id now on_complete on_error)
  ]

  -- a stream that is not there drops the chunk; `uint32(sequence)` wraps
  unfoldable pub add_chunk :
      StreamManager C
      → Bytes
      → ℕ
      → Bytes
      → Bool
      → ℕ
      → Outcome Fault (StreamManager C × Option (Delivery C))
  add_chunk sm id sequence payload is_last now = elim (get_stream sm id) [
    | none ↦ ok (sm, none)
    | some s ↦ do
      (s', call) ← Stream.add_chunk s (sequence % 2 ^ 32) payload is_last now
      sm' ← set_stream sm id s'
      ok (sm', call)
  ]

  unfoldable pub remove_stream : StreamManager C → Bytes → StreamManager C
  remove_stream sm id = elim sm.streams [
    | none ↦ sm
    | some m ↦ record sm { streams = some (Dict.remove id m) }
  ]

  unfoldable pub stall_limit : StreamManager C → ℤ
  stall_limit sm = if ltb_ℤ (pos 0) sm.stall_timeout then sm.stall_timeout else minutes 2

  unfoldable pub is_stale : StreamManager C → ℕ → Stream C → Bool
  is_stale sm now s =
      not (is_closed s.state)
      && (ltb_ℤ (stall_limit sm) (pos now -ℤ pos s.last_activity)
          || ltb_ℤ sm.max_stream_age (pos now -ℤ pos s.created_at))

  -- the body of the loop of `cleanup` for one id
  unfoldable pub clean_one : StreamManager C → ℕ → Bytes → StreamManager C × List (ErrorCall C)
  clean_one sm now id = elim (get_stream sm id) [
    | none ↦ (sm, [])
    | some s ↦ (
      if is_closed s.state || is_stale sm now s then remove_stream sm id else sm,
      if is_stale sm now s
          then (elim s.on_error [ none ↦ [] | some f ↦ record { callback = f; id = id } ∷ [] ])
          else [],
    )
  ]

  unfoldable pub clean_all : StreamManager C → ℕ → List Bytes → StreamManager C × List (ErrorCall C)
  unfolding clean_one
  clean_all sm now [] = (sm, [])
  clean_all sm now (id ∷ ids) =
      let (sm', calls) = clean_one sm now id in
      let (sm'', more) = clean_all sm' now ids in (sm'', calls ++ more)

  unfoldable pub stream_ids : StreamManager C → List Bytes
  stream_ids sm = elim sm.streams [ none ↦ [] | some m ↦ map (λ e. e.0) m ]

  unfoldable pub cleanup : StreamManager C → ℕ → StreamManager C × List (ErrorCall C)
  unfolding clean_all stream_ids
  cleanup sm now = clean_all sm now (stream_ids sm)

  -- a second `close` of the channel panics
  unfoldable pub destroy : StreamManager C → Outcome Fault (StreamManager C)
  destroy sm = if sm.stopped then panic else ok (record sm { streams = none; stopped = true })
