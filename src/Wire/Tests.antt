-- ===== src/Wire/Tests.antt =====
-- Frames at concrete inputs.
use inlets.Common.{◌≢◌, [], ◌∷◌, ◌≡◌, refl, ◌↔◌, ◌⊎◌, Bytes, ◌++◌, ok, err, panic, codes, arith}
use inlets.Wire.{
  BinaryMessage, build_binary_message, parse_binary_message, client_parse_binary_message,
  too_short_for_stream_id, parse_after_stream_id, slice, byte_at, uint32_at, first_byte,
}
use inlets.Wire.RoundTrip.{IsEncodable, parse-build}
use inlets.Wire.Panics.{IsCutOff, parse_panics_iff, parsers_agree}
use inlets.Wire.Accepts.{IsBytes, parse-accepts}

-- the last chunk of the stream "ab": message type 3, sequence 258, FIN
abbrev last_chunk : BinaryMessage
last_chunk = record {
  message_type = 3;
  stream_id = codes "ab";
  sequence = 258;
  flags = 1;
  payload = 9 ∷ 8 ∷ 7 ∷ [];
}

abbrev last_chunk_frame : Bytes
last_chunk_frame = 3 ∷ 2 ∷ 97 ∷ 98 ∷ 0 ∷ 0 ∷ 1 ∷ 2 ∷ 1 ∷ 0 ∷ 0 ∷ 0 ∷ 3 ∷ 9 ∷ 8 ∷ 7 ∷ []

-- a stream id of two bytes, and one byte less than the rest of the header
abbrev cut_off : Bytes
cut_off = 3 ∷ 2 ∷ 97 ∷ 98 ∷ 0 ∷ 0 ∷ 1 ∷ 2 ∷ 1 ∷ 0 ∷ 0 ∷ 0 ∷ []

builds : build_binary_message last_chunk ≡ ok last_chunk_frame
unfolding build_binary_message
builds = refl

parses : parse_binary_message last_chunk_frame ≡ ok last_chunk
unfolding parse_binary_message parse_after_stream_id slice byte_at uint32_at
parses = refl

server_panics : parse_binary_message cut_off ≡ panic
unfolding parse_binary_message parse_after_stream_id slice byte_at uint32_at
server_panics = refl

client_reports : client_parse_binary_message cut_off ≡ err too_short_for_stream_id
unfolding client_parse_binary_message byte_at first_byte
client_reports = refl

last_chunk-IsEncodable : IsEncodable last_chunk
last_chunk-IsEncodable = record {
  message_type = omega arith;
  stream_id = omega arith;
  sequence = omega arith;
  flags = omega arith;
  payload = omega arith;
}

parse-build_example :
    (b : Bytes) × (build_binary_message last_chunk ≡ ok b)
    × (parse_binary_message (b ++ (5 ∷ [])) ≡ ok last_chunk)
    × (client_parse_binary_message (b ++ (5 ∷ [])) ≡ ok last_chunk)
parse-build_example = parse-build last_chunk (5 ∷ []) last_chunk-IsEncodable

parse_panics_iff_example : (parse_binary_message cut_off ≡ panic) ↔ IsCutOff cut_off
parse_panics_iff_example = parse_panics_iff cut_off

parsers_agree_example :
    ((parse_binary_message cut_off ≢ panic)
      × (client_parse_binary_message cut_off ≡ parse_binary_message cut_off))
    ⊎ ((parse_binary_message cut_off ≡ panic)
        × (client_parse_binary_message cut_off ≡ err too_short_for_stream_id))
parsers_agree_example = parsers_agree cut_off

last_chunk_frame-IsBytes : IsBytes (last_chunk_frame ++ (5 ∷ []))
last_chunk_frame-IsBytes = ground arith

parses_with_more : parse_binary_message (last_chunk_frame ++ (5 ∷ [])) ≡ ok last_chunk
unfolding parse_binary_message parse_after_stream_id slice byte_at uint32_at
parses_with_more = refl

parse-accepts_example :
    (f rest : Bytes) × (build_binary_message last_chunk ≡ ok f)
    × (last_chunk_frame ++ (5 ∷ []) ≡ f ++ rest)
parse-accepts_example =
    parse-accepts (last_chunk_frame ++ (5 ∷ [])) last_chunk last_chunk_frame-IsBytes
      parses_with_more
