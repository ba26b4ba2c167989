-- ===== src/Monitor/Negotiation/Limits.antt =====
-- What the server agrees on.
use Prim.Native.Nat.{bit_and}
use inlets.Common.{
  ℕ, ◌≡◌, ◌≢◌, ◌*◌, refl, subst, List, [], ◌∷◌, true, Option, none, some, Bytes, arith, All, ok,
  ◌==◌, ◌⊎◌, inl, inr, if_elim, if_case, bind_ok,
}
use inlets.Common.Int.{ℤ, pos, negsuc, ◌≤ℤ◌, ltb_ℤ}
use inlets.Common.Text.{same_text}
use inlets.Protocol.{Capabilities, Features, CompressionCaps, ChunkSize, has_bit}
use inlets.Protocol.Capability
use inlets.Monitor.Negotiation.{
  larger, smaller, server_capabilities, brotli, gzip, contains, common_algorithms, with_preferred,
  algorithms_of, negotiate_compression, chunk_of, negotiate_chunk, window_of, agreed_window,
  negotiate_window, agree, negotiate_capabilities,
}

-- the algorithms are the client's and the server's, and the preferred one is among them
abbrev pub FairCompression : List Bytes → Option CompressionCaps → Type 0
FairCompression client none = Unit
FairCompression client (some c) =
    All (λ (a : Bytes). (contains a client ≡ true) × (contains a (brotli ∷ gzip ∷ []) ≡ true))
      c.algorithms
    × (contains c.preferred c.algorithms ≡ true)

abbrev pub offered_chunk : Option Features → Option ChunkSize
offered_chunk none = none
offered_chunk (some f) = f.chunk_size

-- 65536, or what is offered where that is less
abbrev pub FairDefault : Option ChunkSize → ℤ → Type 0
FairDefault none d = d ≡ pos (64 * 1024)
FairDefault (some o) d =
    (d ≤ℤ pos (64 * 1024)) × (d ≤ℤ o.default_size) × ((d ≡ pos (64 * 1024)) ⊎ (d ≡ o.default_size))

abbrev pub FairChunk : Option ChunkSize → Option ChunkSize → Type 0
FairChunk offered none = Unit
FairChunk offered (some c) =
    (pos 1024 ≤ℤ c.min_size)
    × (c.max_size ≤ℤ pos (1024 * 1024))
    × FairDefault offered c.default_size

abbrev pub FairWindow : Option ℤ → Type 0
FairWindow none = Unit
FairWindow (some w) = (pos 1 ≤ℤ w) × (w ≤ℤ pos (1024 * 1024))

abbrev pub FairFeatures : Option Features → Option Features → Type 0
FairFeatures features none = Unit
FairFeatures features (some f) =
    FairCompression (algorithms_of features) f.compression
    × FairChunk (offered_chunk features) f.chunk_size
    × FairWindow f.window_size

same_text_refl : (a : Bytes) → same_text a a ≡ true
unfolding same_text
same_text_refl a = ground arith

contains_self : (a : Bytes) (bs : List Bytes) → contains a (a ∷ bs) ≡ true
contains_self a bs = rw (same_text_refl a) refl

contains_more : (a b : Bytes) (bs : List Bytes) → contains a bs ≡ true → contains a (b ∷ bs) ≡ true
contains_more a b bs h = ground (arith, h)

-- an algorithm that both have
abbrev Common : List Bytes → Bytes → Type 0
Common client a = (contains a client ≡ true) × (contains a (brotli ∷ gzip ∷ []) ≡ true)

All-more :
    (b : Bytes) (client as_ : List Bytes) → All (Common client) as_ → All (Common (b ∷ client)) as_
All-more b client [] h = tt
All-more b client (a ∷ as_) (h, hs) =
    ((contains_more a b client h.0, h.1), All-more b client as_ hs)

common_algorithms-All : (client : List Bytes) → All (Common client) (common_algorithms client)
unfolding common_algorithms
common_algorithms-All [] = tt
common_algorithms-All (a ∷ client) =
    let rest = All-more a client (common_algorithms client) (common_algorithms-All client) in
    if_case (All (Common (a ∷ client))) (contains a (brotli ∷ gzip ∷ [])) _ _
      (λ e. ((contains_self a client, e), rest)) (λ e. rest)

with_preferred-Fair :
    (client as_ : List Bytes)
    → All (Common client) as_
    → FairCompression client (with_preferred as_)
unfolding with_preferred
with_preferred-Fair client [] h = tt
with_preferred-Fair client (a ∷ as_) h = (
  h,
  if_case (λ (p : Bytes). contains p (a ∷ as_) ≡ true) (contains brotli (a ∷ as_)) brotli a (λ e. e)
      (λ e. contains_self a as_),
)

larger_ge : (a b : ℤ) → b ≤ℤ larger a b
larger_ge (pos a) (pos b) = ground arith
larger_ge (pos a) (negsuc b) = ground arith
larger_ge (negsuc a) (pos b) = ground arith
larger_ge (negsuc a) (negsuc b) = ground arith

smaller_le : (a b : ℤ) → smaller a b ≤ℤ b
smaller_le (pos a) (pos b) = ground arith
smaller_le (pos a) (negsuc b) = ground arith
smaller_le (negsuc a) (pos b) = ground arith
smaller_le (negsuc a) (negsuc b) = ground arith

smaller_le_left : (a b : ℤ) → smaller a b ≤ℤ a
smaller_le_left (pos a) (pos b) = ground arith
smaller_le_left (pos a) (negsuc b) = ground arith
smaller_le_left (negsuc a) (pos b) = ground arith
smaller_le_left (negsuc a) (negsuc b) = ground arith

smaller_either : (a b : ℤ) → (smaller a b ≡ b) ⊎ (smaller a b ≡ a)
smaller_either a b =
    if_case (λ (x : ℤ). (x ≡ b) ⊎ (x ≡ a)) (ltb_ℤ b a) b a (λ e. inl refl) (λ e. inr refl)

chunk_of-Fair : (o : Option ChunkSize) → FairChunk o (some (chunk_of o))
unfolding chunk_of
chunk_of-Fair none = (omega arith, omega arith, refl)
chunk_of-Fair (some c) = (
  larger_ge c.min_size (pos 1024),
  smaller_le c.max_size (pos (1024 * 1024)),
  (
    smaller_le c.default_size (pos (64 * 1024)),
    smaller_le_left c.default_size (pos (64 * 1024)),
    smaller_either c.default_size (pos (64 * 1024)),
  ),
)

agreed_window-Fair : (n : ℕ) → FairWindow (some (agreed_window (pos n)))
unfolding agreed_window
agreed_window-Fair n = (ground arith, ground arith)

negotiate_chunk-Fair :
    (flags : ℕ) (features : Option Features) (r : Option ChunkSize)
    → negotiate_chunk flags features ≡ ok r
    → FairChunk (offered_chunk features) r
unfolding negotiate_chunk
negotiate_chunk-Fair flags none r h =
    if_elim (has_bit Capability.streaming flags) h (λ e p. absurd (cc))
      (λ e p. let none_ : none ≡ r = cc in subst (FairChunk (offered_chunk none)) none_ tt)
negotiate_chunk-Fair flags (some f) r h =
    if_elim (has_bit Capability.streaming flags) h
      (λ e p.
        let some_ : some (chunk_of f.chunk_size) ≡ r = cc in
        subst (FairChunk f.chunk_size) some_ (chunk_of-Fair f.chunk_size))
      (λ e p. let none_ : none ≡ r = cc in subst (FairChunk f.chunk_size) none_ tt)

negotiate_window-Fair :
    (flags : ℕ) (features : Option Features) (n : ℕ)
    → window_of features ≡ pos n
    → FairWindow (negotiate_window flags features)
unfolding negotiate_window
negotiate_window-Fair flags features n h =
    if_case FairWindow (has_bit Capability.flow_control flags) _ _
      (λ e. rw h (agreed_window-Fair n)) (λ e. tt)

negotiate_compression-Fair :
    (flags : ℕ) (features : Option Features)
    → FairCompression (algorithms_of features) (negotiate_compression flags features)
unfolding negotiate_compression
negotiate_compression-Fair flags features =
    if_case (FairCompression (algorithms_of features)) (has_bit Capability.compression flags) _ _
      (λ e.
        with_preferred-Fair (algorithms_of features) _
          (common_algorithms-All (algorithms_of features)))
      (λ e. tt)

-- what the server agrees to with a client of these flags and features
abbrev pub IsFair : ℕ → Option Features → Capabilities → Type 0
IsFair flags features r =
    (r.flags ≡ bit_and flags 1023) × (r.flags ≢ 0) × FairFeatures features r.features

agree-Fair :
    (flags : ℕ) (features : Option Features) (n : ℕ) (r : Capabilities)
    → window_of features ≡ pos n
    → agree flags features ≡ ok (some r)
    → (r.flags ≡ flags) × FairFeatures features r.features
unfolding agree
agree-Fair flags features n r h e = bind_ok (negotiate_chunk flags features) _ e (λ chunk c p.
    let r' : Capabilities = record {
      flags = flags;
      version = server_capabilities.version;
      features = some (record {
        compression = negotiate_compression flags features;
        chunk_size = chunk;
        window_size = negotiate_window flags features;
      });
    } in
    let same : r' ≡ r = cc in
    subst (λ (x : Capabilities). (x.flags ≡ flags) × FairFeatures features x.features) same
      (
        refl,
        (
          negotiate_compression-Fair flags features,
          negotiate_chunk-Fair flags features chunk c,
          negotiate_window-Fair flags features n h,
        ),
      ))

-- What the server agrees on with a client that offers a window of no negative size: the flags that
-- both have, one at least; only algorithms that both have, the preferred one among them; a least
-- chunk size of at least 1024 and a largest of at most 1048576 bytes; as the default chunk size the
-- client's, or 65536 if the client names a larger one or no sizes, with no lower bound; and a
-- window from 1 to 1048576 bytes.
pub negotiate_capabilities-IsFair :
    (caps r : Capabilities) (n : ℕ)
    → window_of caps.features ≡ pos n
    → negotiate_capabilities (some caps) ≡ ok (some r)
    → IsFair caps.flags caps.features r
unfolding negotiate_capabilities
negotiate_capabilities-IsFair caps r n h e =
    if_elim (caps.flags == 0) e (λ z p. absurd (cc))
      (λ z p.
        if_elim (bit_and caps.flags 1023 == 0) p (λ y q. absurd (cc))
          (λ y q.
            let (same, fair) = agree-Fair (bit_and caps.flags 1023) caps.features n r h q in
            (same, ground (arith, y, same), fair)))
