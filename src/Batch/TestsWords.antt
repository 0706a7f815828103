-- ===== src/Batch/TestsWords.antt =====
-- A supply of 1000 as a contract returns it.
use triodion.Prelude.{◌<◌, ◌≤◌, ◌^◌, ◌≡◌, some, ◌⊎◌, inl, inr, arith}
use triodion.Errors.{collect_error}
use triodion.Batch.Override.{be_bytes}
use triodion.Batch.Conversions.{bytes_to_u32, decode_u256_word, decode_u256_word-be_bytes}

decode_u256_word-be_bytes_example :
    (decode_u256_word (be_bytes 32 1000) ≡ some 1000)
    × (((1000 < 2 ^ 32) × (bytes_to_u32 (be_bytes 32 1000) ≡ inr 1000))
        ⊎ ((2 ^ 32 ≤ 1000)
            × (bytes_to_u32 (be_bytes 32 1000)
                ≡ inl (collect_error "could not convert bytes to u32"))))
decode_u256_word-be_bytes_example = decode_u256_word-be_bytes 1000 (omega arith)
