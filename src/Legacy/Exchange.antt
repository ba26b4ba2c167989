-- ===== src/Legacy/Exchange.antt =====
-- What one end sends, the other end's handler gets.
use inlets.Common.{
  ℕ, ◌≡◌, ◌↔◌, Bool-cases, inl, inr, refl, ◌∷◌, Bool, true, false, not, Option, some, Bytes,
  Outcome, ok, err, if◌then◌else◌, sym,
}
use inlets.Protocol.{Codec}
use inlets.Legacy.RawHttp.{BeginsRaw, looks_like_raw_http_iff}
use inlets.Legacy.{
  Base64, LegacyError, LegacyAdapter, LegacyEvent, request, response, other, encode_outer,
  encode_request_data, encode_response_data, decode_payload, looks_like_raw_http, handle_event,
  handler_of,
}

-- the bytes under the outer base64
abbrev pub carried : Codec → Base64 → Bool → Bytes → Option Bytes
carried codec base64 true data_ = codec.compress_brotli (base64.encode_to_string data_)
carried codec base64 false data_ = some data_

-- what an end writes for an event
abbrev pub written :
    Codec → Base64 → LegacyEvent → LegacyAdapter → Bytes → Outcome LegacyError Bytes
written codec base64 request a data_ = encode_request_data codec base64 a data_
written codec base64 response a data_ = encode_response_data codec base64 a data_
written codec base64 other a data_ = err LegacyError.compress_failed

-- a text that carries `x` is decoded to the data
decode-carried :
    (codec : Codec) (base64 : Base64) (compressed : Bool) (data_ x : Bytes)
    → ((s : Bytes) → base64.decode_string (base64.encode_to_string s) ≡ some s)
    → ((s t : Bytes) → codec.compress_brotli s ≡ some t → codec.decompress_brotli t ≡ some s)
    → carried codec base64 compressed data_ ≡ some x
    → looks_like_raw_http x ≡ not compressed
    → decode_payload codec base64 (base64.encode_to_string x) ≡ ok data_
unfolding decode_payload
decode-carried codec base64 true data_ x b64 brotli c raw =
    rw (b64 x, raw, brotli (base64.encode_to_string data_) x c, b64 data_) refl
decode-carried codec base64 false data_ x b64 brotli c raw = rw (b64 x, raw) cc

-- the test tells how the sender encoded
told :
    (compressed : Bool) (x : Bytes)
    → (compressed ≡ false) ↔ BeginsRaw x
    → looks_like_raw_http x ≡ not compressed
told true x h = elim (Bool-cases (looks_like_raw_http x)) [
  | inl e ↦ let no = h.1 ((looks_like_raw_http_iff x).0 e) in absurd (cc)
  | inr e ↦ e
]
told false x h = (looks_like_raw_http_iff x).1 (h.0 refl)

encode-carried :
    (codec : Codec) (base64 : Base64) (compressed : Bool) (data_ x : Bytes)
    → carried codec base64 compressed data_ ≡ some x
    → (if compressed
        then encode_outer codec base64 (base64.encode_to_string data_)
        else ok (base64.encode_to_string data_))
      ≡ ok (base64.encode_to_string x)
unfolding encode_outer
encode-carried codec base64 true data_ x c = rw c refl
encode-carried codec base64 false data_ x c = cc

-- the receiver has the handler `h` for an event, on its side of the connection
abbrev pub Takes : LegacyEvent → LegacyAdapter → ℕ → Type 0
Takes request a h = (a.is_client ≡ true) × (a.http_request_handler ≡ some h)
Takes response a h = (a.is_client ≡ false) × (a.http_response_handler ≡ some h)
Takes other a h = ⊥

handler_of_lem :
    (event : LegacyEvent) (a : LegacyAdapter) (h : ℕ)
    → Takes event a h
    → handler_of event a ≡ some h
handler_of_lem request a h (side, there) = rw side there
handler_of_lem response a h (side, there) = rw side there
handler_of_lem other a h t = absurd t

-- A request that a server sends reaches the request handler of a client, and a response that a
-- client sends the response handler of a server, unchanged, with or without compression. The
-- conditions: base64 and the compressor can be undone; the bytes `x` under the outer base64 begin
-- like raw HTTP, with `HTTP/` or one of nine methods and a space, exactly when the sender does not
-- compress; they give a text that is not empty, and the identifier is not empty. Then the sender
-- writes that text, and the receiver calls its handler with the identifier and the data.
pub handle_event-written :
    (codec : Codec) (base64 : Base64) (event : LegacyEvent) (sender receiver : LegacyAdapter)
    (h b c : ℕ) (id data_ x wire : Bytes)
    → ((s : Bytes) → base64.decode_string (base64.encode_to_string s) ≡ some s)
    → ((s t : Bytes) → codec.compress_brotli s ≡ some t → codec.decompress_brotli t ≡ some s)
    → carried codec base64 sender.use_compressed_outer data_ ≡ some x
    → (sender.use_compressed_outer ≡ false) ↔ BeginsRaw x
    → base64.encode_to_string x ≡ c ∷ wire
    → Takes event receiver h
    → (written codec base64 event sender data_ ≡ ok (c ∷ wire))
      × (handle_event codec base64 event (some (b ∷ id, c ∷ wire)) receiver
          ≡ some (h, b ∷ id, data_))
unfolding handle_event encode_request_data encode_response_data
handle_event-written codec base64 request sender receiver h b c id data_ x wire b64 br ca raw t on =
    (
      rw (sym t) (encode-carried codec base64 _ data_ x ca),
      rw (handler_of_lem request receiver h on, sym t)
          (rw (decode-carried codec base64 _ data_ x b64 br ca (told _ x raw)) refl),
    )
handle_event-written codec base64 response sender receiver h b c id data_ x wire b64 br ca raw t
      on =
    (
      rw (sym t) (encode-carried codec base64 _ data_ x ca),
      rw (handler_of_lem response receiver h on, sym t)
          (rw (decode-carried codec base64 _ data_ x b64 br ca (told _ x raw)) refl),
    )
handle_event-written codec base64 other sender receiver h b c id data_ x wire b64 br ca raw t on =
    absurd on
