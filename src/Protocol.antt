-- ===== src/Protocol.antt =====
-- The codes of internal/server/protocol/binary.go and the part of internal/client/types.go that
-- the two ends negotiate.
pub mod MessageType
pub mod Capability
use inlets.Common.{ℕ, ◌/◌, ◌%◌, ◌^◌, List, Bool, Option, Bytes, ◌==◌}
use inlets.Common.Int.{ℤ}

-- `flags & (1 << k) != 0`
abbrev pub has_bit : ℕ → ℕ → Bool
has_bit k flags = flags / 2 ^ k % 2 == 1

pub record CompressionCaps : Type 0 where
  pub algorithms : List Bytes
  pub preferred : Bytes

pub record ChunkSize : Type 0 where
  pub min_size : ℤ
  pub max_size : ℤ
  pub default_size : ℤ

-- `none` is a nil pointer.
pub record Features : Type 0 where
  pub compression : Option CompressionCaps
  pub chunk_size : Option ChunkSize
  pub window_size : Option ℤ

pub record Capabilities : Type 0 where
  pub flags : ℕ
  pub version : Bytes
  pub features : Option Features

-- The compressors, which are not the program's. `none` is an error.
pub record Codec : Type 0 where
  pub compress_brotli : Bytes → Option Bytes
  pub decompress_brotli : Bytes → Option Bytes
  pub compress_gzip : Bytes → Option Bytes
  pub decompress_gzip : Bytes → Option Bytes
