-- ===== src/Adapter/Sending.antt =====
-- What the sender of a streamed message writes, without flow control.
use inlets.Common.{
  ℕ, suc, ◌+◌, ◌%◌, ◌^◌, ◌≤◌, ◌≡◌, refl, List, [], ◌∷◌, none, some, Bytes, length, arith,
}
use inlets.Common.Int.{pos}
use inlets.Manager.{StreamManager, effective_size}
use inlets.Manager.Chunks.{IsSplit, split_into_chunks_total}
use inlets.Flow.Wait.{Environment}
use inlets.Wire.{BinaryMessage}
use inlets.Wire.Buffer.{frame, build-eq-frame}
use inlets.Protocol.{Codec}
use inlets.Adapter.{Adapter, Callback, Event, wrote, Channel, returns}
use inlets.Adapter.Send.{
  send_chunks, send_streaming, start_window, wait_slot, write, compressed, fin_flag, is_nil,
}

-- The chunks of a message, numbered from `n`, the last with FIN.
abbrev pub numbered : ℕ → Bytes → List Bytes → ℕ → List BinaryMessage
numbered t id [] n = []
numbered t id (chunk ∷ chunks) n =
    record {
      message_type = t;
      stream_id = id;
      sequence = n;
      flags = fin_flag (is_nil chunks);
      payload = chunk;
    }
    ∷ numbered t id chunks ((n + 1) % 2 ^ 32)

abbrev pub all_wrote : Channel → List BinaryMessage → List Event
all_wrote channel [] = []
all_wrote channel (msg ∷ msgs) = wrote channel (frame msg) ∷ all_wrote channel msgs

abbrev quiet : Adapter → Adapter
quiet a = record a { flow_controller = none; writes = [] }

module _ (codec : Codec) (env : ℕ → Environment) (channel : Channel) (t : ℕ) (id : Bytes)
    (short : length id ≤ 255) (a : Adapter) where
  no_wait : (e : Environment) (n : ℕ) → wait_slot codec e id n (quiet a) ≡ (returns tt, quiet a, [])
  unfolding wait_slot
  no_wait e n = refl

  one_write :
      (bytes : Bytes)
      → write channel bytes (quiet a) ≡ (returns tt, quiet a, wrote channel bytes ∷ [])
  unfolding write
  one_write bytes = refl

  send_chunks-numbered :
      (chunks : List Bytes) (n : ℕ)
      → send_chunks codec env channel t id chunks n (quiet a)
        ≡ (returns tt, quiet a, all_wrote channel (numbered t id chunks n))
  unfolding send_chunks
  send_chunks-numbered [] n = refl
  send_chunks-numbered (chunk ∷ chunks) n =
      let msg : BinaryMessage = record {
        message_type = t;
        stream_id = id;
        sequence = n;
        flags = fin_flag (is_nil chunks);
        payload = chunk;
      } in
      rw (
        no_wait (env n) (length chunk),
        build-eq-frame msg short,
        one_write (frame msg),
        send_chunks-numbered chunks ((n + 1) % 2 ^ 32),
      )

  no_start : start_window id (quiet a) ≡ (returns tt, quiet a, [])
  unfolding start_window
  no_start = refl

  compressed-quiet :
      (payload : Bytes) → compressed codec (quiet a) t payload ≡ compressed codec a t payload
  unfolding compressed
  compressed-quiet payload = refl

  -- Without flow control and with writes that succeed, a streamed message is written as the frames
  -- of its chunks: the data are compressed, split by the chunk size, numbered from 0, and FIN is
  -- on the last chunk only.
  pub send_streaming-numbered :
      (sm : StreamManager Callback) (payload processed : Bytes) (size : ℕ)
      → compressed codec a t payload ≡ some processed
      → effective_size sm a.chunk_size ≡ pos (suc size)
      → (chunks : List Bytes) × IsSplit processed (suc size) chunks
        × (send_streaming codec env channel sm t id payload
              (record a { flow_controller = none; writes = [] })
            ≡ (
              returns tt,
              record a { flow_controller = none; writes = [] },
              all_wrote channel (numbered t id chunks 0),
            ))
  unfolding send_streaming
  send_streaming-numbered sm payload processed size c e =
      let (chunks, q, split) =
        split_into_chunks_total sm processed a.chunk_size (suc size) (suc (length processed)) e
          (omega arith) (omega arith) in
      (chunks, split, rw (no_start, compressed-quiet payload, c, q, send_chunks-numbered chunks 0))
