-- ===== src/Session/Arrivals.antt =====
-- The frames that arrive are the frames of parts of the message.
use inlets.Common.{
  inl, inr, ℕ, zero, suc, ◌+◌, ◌%◌, ◌^◌, ◌≤◌, ◌<◌, ◌≡◌, refl, sym, subst, ◌∙◌, ap, List, [], ◌∷◌,
  append-nil, Bool, true, false, some, Bytes, length, ok, arith, All, get_elem?, get_elem?_lt,
  get_elem?_bound, ◌==◌,
}
use inlets.Stream.Reassembly.{Part, IsPart}
use inlets.Stream.Arrival.{Arrived}
use inlets.Wire.{BinaryMessage, parse_binary_message}
use inlets.Wire.Buffer.{frame, build-eq-frame}
use inlets.Wire.RoundTrip.{IsEncodable, parse-build}
use inlets.Protocol.{Codec}
use inlets.Protocol.MessageType
use inlets.Adapter.{Event, wrote, Channel}
use inlets.Adapter.Receive.{handle_binary_message, handle_parsed}
use inlets.Adapter.Part.{part_frame, handle_parts}
use inlets.Adapter.Send.{fin_flag, is_nil}
use inlets.Adapter.Sending.{numbered, all_wrote}
use inlets.Session.{handle_frames, delivered, Comes}

module _ (t : ℕ) (id : Bytes) where
  fin_of_nil : {A : Type 0} (xs : List A) → is_nil xs ≡ (1 == suc (length xs))
  fin_of_nil [] = refl
  fin_of_nil (y ∷ xs) = ground arith

  abbrev chunk_message : ℕ → ℕ → Bytes → BinaryMessage
  chunk_message sequence flags payload = record {
    message_type = t;
    stream_id = id;
    sequence = sequence;
    flags = flags;
    payload = payload;
  }

  numbered_at :
      (chunks : List Bytes) (n i : ℕ) (c : Bytes) (sequence : ℕ) (is_last : Bool)
      → n + length chunks < 2 ^ 32
      → get_elem? chunks i ≡ some c
      → sequence ≡ n + i
      → is_last ≡ (suc i == length chunks)
      → get_elem? (numbered t id chunks n) i ≡ some (chunk_message sequence (fin_flag is_last) c)
  numbered_at [] n i c sequence is_last small h s l = cc
  numbered_at (x ∷ chunks) n zero c sequence is_last small h s l =
      let same : x ≡ c = cc in
      let first : n ≡ sequence = omega (arith, s) in
      let nil : is_nil chunks ≡ is_last = fin_of_nil chunks ∙ sym l in rw (same, first, nil)
  numbered_at (x ∷ chunks) n (suc i) c sequence is_last small h s l =
      numbered_at chunks ((n + 1) % 2 ^ 32) i c sequence is_last (omega arith) h
        (omega (arith, small, s)) (ground arith)

all_wrote_at :
    (channel : Channel) (msgs : List BinaryMessage) (i : ℕ) (msg : BinaryMessage)
    → get_elem? msgs i ≡ some msg
    → get_elem? (all_wrote channel msgs) i ≡ some (wrote channel (frame msg))
all_wrote_at channel [] i msg h = cc
all_wrote_at channel (x ∷ msgs) zero msg h = let same : x ≡ msg = cc in rw same
all_wrote_at channel (x ∷ msgs) (suc i) msg h = all_wrote_at channel msgs i msg h

-- the frames of parts of the request `id`
pub part_frames : Bytes → List Part → List (ℕ × Bytes)
part_frames id [] = []
part_frames id (p ∷ ps) = (p.arrival, frame (part_frame id p)) ∷ part_frames id ps

module _ (id : Bytes) (channel : Channel) {C : Type 0} (chunks : List Bytes) (callback : C)
    (small : length chunks < 2 ^ 32) where
  abbrev pub events : List Event
  events = all_wrote channel (numbered MessageType.http_request id chunks 0)

  -- What arrives is the frames of some parts of the message, in the order of the arrivals.
  pub record Arrivals (arrivals : List (ℕ × ℕ)) (bytes : List (ℕ × Bytes)) : Type 0 where
    pub parts : List Part
    pub valid : All (IsPart chunks callback) parts
    pub same : bytes ≡ part_frames id parts
    pub complete : (i : ℕ) → Comes i arrivals → Arrived i parts

  pub Arrivals-Arrivals :
      (arrivals : List (ℕ × ℕ))
      → All (λ (a : ℕ × ℕ). a.0 < length chunks) arrivals
      → Arrivals arrivals (delivered events arrivals)
  unfolding delivered part_frames
  Arrivals-Arrivals [] h = record { parts = []; valid = tt; same = refl; complete = λ i c. c }
  Arrivals-Arrivals ((k, now) ∷ arrivals) h =
      let rest = Arrivals-Arrivals arrivals h.1 in
      let (c, found) = get_elem?_lt chunks k h.0 in
      let p : Part = record {
        sequence = k;
        payload = c;
        is_last = suc k == length chunks;
        arrival = now;
      } in
      let written =
        all_wrote_at channel (numbered MessageType.http_request id chunks 0) k (part_frame id p) (
          numbered_at MessageType.http_request id chunks 0 k c k (suc k == length chunks)
            (omega (arith, small)) found (omega arith) refl) in
      record {
        parts = p ∷ rest.parts;
        valid = (record { found = found; last = refl }, rest.valid);
        same =
            rw written
              (ap (λ (xs : List (ℕ × Bytes)). (now, frame (part_frame id p)) ∷ xs) rest.same);
        complete = λ i c. elim c [ inl e ↦ inl e | inr m ↦ inr (rest.complete i m) ];
      }

parse_frame : (msg : BinaryMessage) → IsEncodable msg → parse_binary_message (frame msg) ≡ ok msg
parse_frame msg v =
    let (b, built, parsed, _) = parse-build msg [] v in
    let f = build-eq-frame msg v.stream_id in
    let same : b ≡ frame msg = cc in
    subst (λ (x : Bytes). parse_binary_message x ≡ ok msg) (append-nil b ∙ same) parsed

pub length-numbered :
    (channel : Channel) (t : ℕ) (id : Bytes) (chunks : List Bytes) (n : ℕ)
    → length (all_wrote channel (numbered t id chunks n)) ≡ length chunks
length-numbered channel t id [] n = refl
length-numbered channel t id (c ∷ chunks) n =
    ap suc (length-numbered channel t id chunks ((n + 1) % 2 ^ 32))

module _ (codec : Codec) (refuses : Event → Bool) (id : Bytes) where
  read_frame :
      (msg : BinaryMessage)
      → IsEncodable msg
      → (now : ℕ)
      → handle_binary_message codec refuses now (frame msg) ≡ handle_parsed codec refuses now msg
  unfolding handle_binary_message
  read_frame msg v now = rw (parse_frame msg v)

  pub frames-parts :
      (ps : List Part)
      → All (λ (p : Part). IsEncodable (part_frame id p)) ps
      → handle_frames codec refuses (part_frames id ps) ≡ handle_parts codec refuses id ps
  unfolding handle_frames handle_parts part_frames
  frames-parts [] v = refl
  frames-parts (p ∷ ps) v = rw (read_frame (part_frame id p) v.0 p.arrival, frames-parts ps v.1)

All-at :
    (P : Bytes → Type 0) (xs : List Bytes) (i : ℕ) (x : Bytes)
    → All P xs
    → get_elem? xs i ≡ some x
    → P x
All-at P [] i x h e = absurd (cc)
All-at P (y ∷ xs) zero x h e = let same : y ≡ x = cc in rw (← same) h.0
All-at P (y ∷ xs) (suc i) x h e = All-at P xs i x h.1 e

fin_small : (b : Bool) → fin_flag b < 256
fin_small true = omega arith
fin_small false = omega arith

-- the parts of a message of less than 2 ^ 32 bytes are encodable
pub parts-IsEncodable :
    {C : Type 0} (id : Bytes) (chunks : List Bytes) (callback : C) (ps : List Part)
    → length id ≤ 255
    → length chunks < 2 ^ 32
    → All (λ (c : Bytes). length c < 2 ^ 32) chunks
    → All (IsPart chunks callback) ps
    → All (λ (p : Part). IsEncodable (part_frame id p)) ps
parts-IsEncodable id chunks callback [] short few sized h = tt
parts-IsEncodable id chunks callback (p ∷ ps) short few sized h = (
  record {
    message_type = omega arith;
    stream_id = short;
    sequence = omega (arith, few, get_elem?_bound chunks p.sequence p.payload h.0.found);
    flags = fin_small p.is_last;
    payload = All-at (λ (c : Bytes). length c < 2 ^ 32) chunks p.sequence p.payload sized h.0.found;
  },
  parts-IsEncodable id chunks callback ps short few sized h.1,
)
