-- ===== src/Manager/Holding.antt =====
-- A manager that holds a stream: what `EnsureStream` and `AddChunk` make of it.
use inlets.Common.{
  ℕ, ◌%◌, ◌^◌, ◌<◌, ◌≡◌, refl, Option, some, none, Bool, Bytes, bytes_key, ok, arith,
}
use inlets.Common.Dict
use inlets.Common.Dict.{Dict, get-put}
use inlets.Stream
use inlets.Stream.{Stream, Delivery, active_stream}
use inlets.Manager.{StreamManager, get_stream, set_stream, ensure_stream, add_chunk}

module _ {C : Type 0} where
  pub record Holds (sm : StreamManager C) (id : Bytes) (s : Stream C) : Type 0 where
    pub streams : Dict Bytes (Stream C)
    pub open_map : sm.streams ≡ some streams
    pub there : get_stream sm id ≡ some s

  pub set_stream-Holds :
      (sm : StreamManager C) (m : Dict Bytes (Stream C)) (id : Bytes) (s : Stream C)
      → sm.streams ≡ some m
      → (sm' : StreamManager C) × (set_stream sm id s ≡ ok sm') × Holds sm' id s
  unfolding set_stream get_stream
  set_stream-Holds sm m id s o = (
    record sm { streams = some (Dict.put id s m) },
    ground arith,
    record {
      streams = Dict.put id s m;
      open_map = refl;
      there = ground (arith, get-put id id s m);
    },
  )

  -- a stream that is not there is made
  pub ensure_stream-Holds :
      (sm : StreamManager C) (m : Dict Bytes (Stream C)) (id : Bytes) (now : ℕ)
      (on_complete on_error : Option C)
      → sm.streams ≡ some m
      → get_stream sm id ≡ none
      → (sm' : StreamManager C) × (ensure_stream sm id now on_complete on_error ≡ ok sm')
        × Holds sm' id (active_stream id now on_complete on_error)
  unfolding ensure_stream
  ensure_stream-Holds sm m id now on_complete on_error o absent =
      let (sm', e, h) = set_stream-Holds sm m id (active_stream id now on_complete on_error) o in
      (sm', rw (ensure_stream, absent) e, h)

  -- a chunk goes to the stream that is there
  pub add_chunk-Holds :
      (sm : StreamManager C) (id : Bytes) (s s' : Stream C) (sequence : ℕ) (payload : Bytes)
      (is_last : Bool) (now : ℕ) (call : Option (Delivery C))
      → Holds sm id s
      → sequence < 2 ^ 32
      → Stream.add_chunk s sequence payload is_last now ≡ ok (s', call)
      → (sm' : StreamManager C) × (add_chunk sm id sequence payload is_last now ≡ ok (sm', call))
        × Holds sm' id s'
  unfolding add_chunk
  add_chunk-Holds sm id s s' sequence payload is_last now call h small e =
      let (sm', set, h') = set_stream-Holds sm h.streams id s' h.open_map in
      let same : sequence % 2 ^ 32 ≡ sequence = omega arith in
      (sm', rw (add_chunk, h.there, same, e, set), h')
