-- ===== src/Chunks/Binary.antt =====
-- crates/freeze/src/types/chunks/binary_chunk.rs: chunks of raw values (transaction hashes,
-- addresses, call data, slots, topics). The hexadecimal printer of the crate `prefix_hex` is a
-- parameter.
use Prim.Native.String.{count, slice}
use triodion.Prelude.{String, List, length, ltb, if◌then◌else◌}
use triodion.Prelude.Outcome.{Outcome, ok, err}
use triodion.Prelude.Order.{Bytes, bytes_ord, minimum, maximum}
use triodion.Chunks.Interface.{ChunkData, ChunkError, chunk_error}

pub data BinaryChunk : Type 0 where
  values_of : List Bytes → BinaryChunk

abbrev pub items : BinaryChunk → List Bytes
items (values_of vs) = vs

module _ (hex_encode : Bytes → String) where
  -- The first eight characters; what the encoder prints is ASCII.
  unfoldable pub format_item : Bytes → Outcome ChunkError String
  format_item value =
      let hash = hex_encode value in
      if ltb 8 (count hash) then ok (slice hash 0 8) else err (chunk_error "could not format chunk")

  -- `impl ChunkData for BinaryChunk`
  abbrev pub binary_chunk_data : ChunkData BinaryChunk Bytes
  binary_chunk_data = record {
    format_item = format_item;
    size = λ c. length (items c);
    min_value = λ c. minimum (items c);
    max_value = λ c. maximum (items c);
    values = items;
  }
