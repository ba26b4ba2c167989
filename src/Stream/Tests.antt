-- ===== src/Stream/Tests.antt =====
-- A message of three parts whose middle part comes twice and first.
use inlets.Common.{
  ℕ, List, [], ◌∷◌, ◌≡◌, refl, ◌≢◌, ◌<◌, zero, suc, Bool, true, false, some, none, Bytes, bytes_key,
  ℕ_key, codes, All, ok, err, arith,
}
use inlets.Stream.{
  Stream, active_stream, completed, is_closed, add_chunk, resume, pause, out_of_fuel,
}
use inlets.Stream.Reassembly.{Part, IsPart}
use inlets.Stream.Arrival.{Arrived, add_chunks, reassembles, delivers_nothing_early}
use inlets.Stream.Ends.{add_chunk-resume_ends}

abbrev parts : List Bytes
parts = codes "on" ∷ codes "et" ∷ codes "wo" ∷ []

abbrev part : ℕ → Bytes → Bool → ℕ → Part
part n payload is_last now = record {
  sequence = n;
  payload = payload;
  is_last = is_last;
  arrival = now;
}

abbrev out_of_order : List Part
out_of_order =
    part 1 (codes "et") false 10
    ∷ part 2 (codes "wo") true 11
    ∷ part 1 (codes "et") false 12
    ∷ part 0 (codes "on") false 13
    ∷ []

-- the first is still missing
abbrev without_first : List Part
without_first = part 1 (codes "et") false 10 ∷ part 2 (codes "wo") true 11 ∷ []

out_of_order-IsPart : All (IsPart {C = ℕ} parts 7) out_of_order
out_of_order-IsPart = (
  record { found = refl; last = refl },
  (
    record { found = refl; last = refl },
    (record { found = refl; last = refl }, (record { found = refl; last = refl }, tt)),
  ),
)

without_first-IsPart : All (IsPart {C = ℕ} parts 7) without_first
without_first-IsPart =
    (record { found = refl; last = refl }, (record { found = refl; last = refl }, tt))

all-Arrived : (i : ℕ) → i < 3 → Arrived i out_of_order
all-Arrived zero h = ground arith
all-Arrived (suc zero) h = ground arith
all-Arrived (suc (suc zero)) h = ground arith
all-Arrived (suc (suc (suc i))) h = absurd (omega arith)

reassembles_example :
    (s : Stream ℕ) × (add_chunks (active_stream (codes "s") 9 (some 7) none) out_of_order
      ≡ ok (s, record { callback = 7; message = codes "onetwo" } ∷ []))
    × (s.state ≡ completed)
reassembles_example =
    reassembles parts 7 (codes "s") 9 none out_of_order (omega arith) (omega arith)
      out_of_order-IsPart all-Arrived

first_is_missing : ¬ Arrived 0 without_first
first_is_missing = ground arith

delivers_nothing_early_example :
    (s : Stream ℕ) × (add_chunks (active_stream (codes "s") 9 (some 7) none) without_first
      ≡ ok (s, []))
    × (is_closed s.state ≡ false)
delivers_nothing_early_example =
    delivers_nothing_early parts 7 (codes "s") 9 none without_first (omega arith) (omega arith)
      without_first-IsPart 0 (omega arith) first_is_missing

abbrev waiting : Stream ℕ
waiting = pause (active_stream (codes "s") 9 (some 7) none)

add_chunk-resume_ends_example :
    (add_chunk waiting 0 (codes "x") true 10 ≢ err out_of_fuel) × (resume waiting ≢ err out_of_fuel)
add_chunk-resume_ends_example = add_chunk-resume_ends waiting 0 (codes "x") true 10
