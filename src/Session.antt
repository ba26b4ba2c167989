-- ===== src/Session.antt =====
-- Both ends of a streamed request, from `SendHTTPRequest` of the server's adapter to the handler
-- of the client's, without flow control. The network is a list of arrivals: which of the written
-- frames, and when.
pub mod Arrivals
pub mod Request
mod Tests
use inlets.Common.{
  ◌⊎◌, inl, inr, ℕ, zero, suc, ◌+◌, ◌%◌, ◌^◌, ◌≤◌, ◌<◌, ◌≡◌, refl, sym, subst, ◌∙◌, ap, List, [],
  ◌∷◌, append-nil, Bool, true, false, Option, none, some, Bytes, length, ok, arith, All, get_elem?,
  get_elem?_lt, get_elem?_bound, concat, ◌==◌, if◌then◌else◌,
}
use inlets.Common.Int.{pos}
use inlets.Common.Dict.{Dict}
use inlets.Stream.{Stream}
use inlets.Stream.Reassembly.{Part, IsPart}
use inlets.Stream.Arrival.{Arrived}
use inlets.Manager.{StreamManager, get_stream, effective_size}
use inlets.Manager.Chunks.{IsChunk, IsSplit}
use inlets.Flow.Wait.{Environment}
use inlets.Wire.{BinaryMessage, build_binary_message, parse_binary_message}
use inlets.Wire.Buffer.{frame, build-eq-frame}
use inlets.Wire.RoundTrip.{IsEncodable, parse-build}
use inlets.Protocol.{Codec, has_bit}
use inlets.Protocol.MessageType
use inlets.Protocol.Capability
use inlets.Adapter.{
  Adapter, Callback, http_callback, Event, handled, wrote, Channel, Exec, Reply, returns, done,
  ◌>>◌,
}
use inlets.Adapter.Receive.{handle_binary_message, handle_parsed, decompressed}
use inlets.Adapter.Part.{part_frame, handle_parts}
use inlets.Adapter.Send.{send_http_request, compressed, fin_flag, is_nil}
use inlets.Adapter.Sending.{numbered, all_wrote}

-- `HandleBinaryMessage` for each frame, at the time of its arrival
unfoldable pub handle_frames : Codec → (Event → Bool) → List (ℕ × Bytes) → Exec (Unit {0})
handle_frames codec refuses [] = done
handle_frames codec refuses ((now, bytes) ∷ frames) =
    handle_binary_message codec refuses now bytes >> handle_frames codec refuses frames

-- the frame that an event of the sender puts on the network
abbrev pub on_wire : Option Event → ℕ → List (ℕ × Bytes) → List (ℕ × Bytes)
on_wire (some (wrote _ bytes)) now rest = (now, bytes) ∷ rest
on_wire _ now rest = rest

-- An arrival is the position of a frame among those written, and a time.
unfoldable pub delivered : List Event → List (ℕ × ℕ) → List (ℕ × Bytes)
delivered events [] = []
delivered events ((k, now) ∷ arrivals) =
    on_wire (get_elem? events k) now (delivered events arrivals)

-- Frame `i` arrives.
abbrev pub Comes : ℕ → List (ℕ × ℕ) → Type 0
Comes i [] = ⊥
Comes i ((k, _) ∷ arrivals) = (k ≡ i) ⊎ Comes i arrivals
