-- ===== src/Session/Tests.antt =====
-- "onetwo" marked by the codec and sent in chunks of three bytes; the second frame comes first, and
-- again at the end.
use inlets.Common.{
  ℕ, zero, suc, ◌<◌, ◌≡◌, refl, List, [], ◌∷◌, Bool, true, false, Option, some, none, Bytes,
  Bytes-discrete, ℕ_discrete, codes, length, All, arith,
}
use inlets.Common.Int.{pos}
use inlets.Common.Dict
use inlets.Manager.{
  StreamManager, new_stream_manager, effective_size, get_stream, split_into_chunks, split_loop,
}
use inlets.Flow.Wait.{Environment}
use inlets.Protocol.{Capabilities, Codec}
use inlets.Protocol.MessageType
use inlets.Adapter.{
  Adapter, Callback, Event, handled, returns, new_binary_protocol_adapter, algorithm_of,
  should_use_compression, compress_data, decompress_data, should_use_streaming,
}
use inlets.Adapter.Receive.{decompressed}
use inlets.Adapter.Send.{
  send_http_request, send_message, send_streaming, start_window, send_chunks, wait_slot, write,
  compressed,
}
use inlets.Wire.{build_binary_message}
use inlets.Session.{handle_frames, delivered, Comes}
use inlets.Session.Request.{request_delivered}

abbrev unmark : Bytes → Option Bytes
unmark [] = none
unmark (_ ∷ xs) = some xs

abbrev marking : Codec
marking = record {
  compress_brotli = λ xs. some (66 ∷ xs);
  decompress_brotli = unmark;
  compress_gzip = λ xs. some xs;
  decompress_gzip = λ xs. some xs;
}

abbrev accepts_all : Event → Bool
accepts_all _ = false

abbrev alone : ℕ → Environment
alone _ _ = (0, [])

-- compression, streaming and HTTP streaming, and chunks of three bytes
abbrev caps : Capabilities
caps = record {
  flags = 38;
  version = [];
  features = some (record {
    compression = none;
    chunk_size = some (record { min_size = pos 1; max_size = pos 3; default_size = pos 3 });
    window_size = none;
  });
}

abbrev server : Adapter
server = new_binary_protocol_adapter caps false

abbrev client : Adapter
client = record (new_binary_protocol_adapter caps true) { http_request_handler = some 4 }

abbrev manager : StreamManager Callback
manager = new_stream_manager (pos 3)

abbrev sending : Adapter
sending = record server { stream_manager = some manager; flow_controller = none; writes = [] }

compresses :
    compressed marking server MessageType.http_request (codes "onetwo") ≡ some (codes "Bonetwo")
unfolding compressed compress_data should_use_compression new_binary_protocol_adapter algorithm_of
    Bytes-discrete ℕ_discrete
compresses = refl

decompresses :
    decompressed marking client MessageType.http_request (codes "Bonetwo") ≡ some (codes "onetwo")
unfolding decompressed decompress_data should_use_compression new_binary_protocol_adapter
    algorithm_of Bytes-discrete ℕ_discrete
decompresses = refl

no_streams : get_stream manager (codes "r") ≡ none
unfolding get_stream new_stream_manager Dict.get
no_streams = refl

chunk_size : effective_size manager server.chunk_size ≡ pos 3
unfolding effective_size new_binary_protocol_adapter
chunk_size = refl

opened : manager.streams ≡ some []
unfolding new_stream_manager
opened = refl

three_frames : length (send_http_request marking alone (codes "r") (codes "onetwo") sending).2 ≡ 3
unfolding send_http_request send_message send_streaming start_window send_chunks wait_slot write
    compressed compress_data should_use_compression should_use_streaming split_into_chunks
    split_loop effective_size new_stream_manager new_binary_protocol_adapter algorithm_of
    build_binary_message Bytes-discrete ℕ_discrete
three_frames = refl

abbrev arrivals : List (ℕ × ℕ)
arrivals = (1, 10) ∷ (0, 11) ∷ (2, 12) ∷ (1, 13) ∷ []

All-inside : (n : ℕ) → n ≡ 3 → All (λ (x : ℕ × ℕ). x.0 < n) arrivals
All-inside n e = (omega (arith, e), (omega (arith, e), (omega (arith, e), (omega (arith, e), tt))))

each-Comes : (n : ℕ) → n ≡ 3 → (i : ℕ) → i < n → Comes i arrivals
each-Comes n e zero h = ground arith
each-Comes n e (suc zero) h = ground arith
each-Comes n e (suc (suc zero)) h = ground arith
each-Comes n e (suc (suc (suc i))) h = absurd (omega (arith, e, h))

request_delivered_example :
    ((send_http_request marking alone (codes "r") (codes "onetwo") sending).0 ≡ returns tt)
    × (sm' : StreamManager Callback) × (handle_frames marking accepts_all
          (delivered
            (send_http_request marking alone (codes "r") (codes "onetwo") sending).2
            arrivals)
          (record client { stream_manager = some manager; flow_controller = none })
        ≡ (
          returns tt,
          record client { stream_manager = some sm'; flow_controller = none },
          handled 4 (codes "r") (codes "onetwo") ∷ [],
        ))
unfolding new_binary_protocol_adapter
request_delivered_example =
    request_delivered marking accepts_all alone server client manager manager [] (codes "r")
      (codes "onetwo") (codes "Bonetwo") 4 2 arrivals refl (omega arith) compresses chunk_size
      (omega arith) (omega arith) refl refl refl opened no_streams decompresses
      (All-inside _ three_frames) (each-Comes _ three_frames)
