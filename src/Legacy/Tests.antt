-- ===== src/Legacy/Tests.antt =====
-- The legacy protocol at concrete inputs. The base64 here writes a text as it is, and the
-- compressor puts a mark in front of it.
use inlets.Common.{
  ◌∙◌, ◌↔◌, ◌≡◌, refl, sym, ap, Option, [], ◌∷◌, true, false, none, some, Bytes, codes, ok,
}
use inlets.Common.Text.{
  trim_space, trim_left, trim_right, before_end, split, in_front, atoi, digits_below, value_from,
  all_digits,
}
use inlets.Protocol.{Codec}
use inlets.Legacy.{
  Base64, LegacyAdapter, request, looks_like_raw_http, has_prefix, before_suffix, version_parts,
  parse_semver, should_use_compressed_outer, new_legacy_protocol_adapter, handle_event,
}
use inlets.Legacy.RawHttp.{BeginsRaw, looks_like_raw_http_iff}
use inlets.Legacy.Exchange.{written, handle_event-written}

abbrev mark : Bytes → Option Bytes
mark s = some (66 ∷ s)

abbrev unmark : Bytes → Option Bytes
unmark [] = none
unmark (_ ∷ s) = some s

abbrev opened : Option Bytes → Option Bytes
opened none = none
opened (some s) = unmark s

abbrev marking : Codec
marking = record {
  compress_brotli = mark;
  decompress_brotli = unmark;
  compress_gzip = mark;
  decompress_gzip = unmark;
}

abbrev plain : Base64
plain = record { encode_to_string = λ s. s; decode_string = some }

suffix_dropped : parse_semver (codes "v1.3.0-beta.1") ≡ some (1, 3, 0)
unfolding parse_semver trim_space trim_left trim_right before_end before_suffix split in_front
    version_parts atoi digits_below value_from all_digits
suffix_dropped = refl

old_is_plain : should_use_compressed_outer (codes "1.2") ≡ false
unfolding should_use_compressed_outer parse_semver trim_space trim_left trim_right before_end
    before_suffix split in_front version_parts atoi digits_below value_from all_digits
old_is_plain = refl

unknown_is_compressed : should_use_compressed_outer (codes "1.2.3.4") ≡ true
unfolding should_use_compressed_outer parse_semver trim_space trim_left trim_right before_end
    before_suffix split in_front version_parts atoi digits_below value_from all_digits
unknown_is_compressed = refl

-- a request with another method than the nine of the list is not recognized
other_method : looks_like_raw_http (codes "PROPFIND / HTTP/1.1") ≡ false
unfolding looks_like_raw_http has_prefix
other_method = refl

abbrev server : LegacyAdapter
server = new_legacy_protocol_adapter false

-- handler 4 takes the requests
abbrev client : LegacyAdapter
client = record (new_legacy_protocol_adapter true) { http_request_handler = some 4 }

abbrev message : Bytes
message = codes "GET / HTTP/1.1"

unmark-mark : (s t : Bytes) → mark s ≡ some t → unmark t ≡ some s
unmark-mark s t h = sym (ap opened h)

mark_looks : looks_like_raw_http (66 ∷ message) ≡ false
unfolding looks_like_raw_http has_prefix
mark_looks = refl

not_raw : (server.use_compressed_outer ≡ false) ↔ BeginsRaw (66 ∷ message)
not_raw = (
  λ e. absurd (cc),
  λ raw.
      let looks = (looks_like_raw_http_iff (66 ∷ message)).1 raw in
      let no : true ≡ false = sym looks ∙ mark_looks in no,
)

handle_event-written_example :
    (written marking plain request server message ≡ ok (66 ∷ message))
    × (handle_event marking plain request (some (55 ∷ [], 66 ∷ message)) client
        ≡ some (4, 55 ∷ [], message))
handle_event-written_example =
    handle_event-written marking plain request server client 4 55 66 [] message (66 ∷ message)
      message (λ s. refl) unmark-mark refl not_raw refl (refl, refl)
