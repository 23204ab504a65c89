-- ===== src/Tests/Chunks.antt =====
-- Inputs for the chunks (chunk_*.go) and the choice of layers (protocol.go).
use sing_vmess.Base.{
  ℕ, ◌+◌, ◌*◌, ◌%◌, ◌≡◌, none, some, List, [], ◌∷◌, ◌++◌, arith, replicate, ok, Bytes, IsU16,
}
use sing_vmess.Chunk.Hashes.{Hashes}
use sing_vmess.Chunk.Cipher.{toy_cipher, toy_cipher-IsAead}
use sing_vmess.Chunk.Stream.{StreamChunkReader}
use sing_vmess.Chunk.Stream.Writer as StreamWriter
use sing_vmess.Chunk.Stream.RoundTrip as StreamTrip
use sing_vmess.Chunk.Stream.RoundTrip.{reads-write_all}
use sing_vmess.Chunk.AeadLength.RoundTrip as AeadTrip
use sing_vmess.Chunk.AeadLength.RoundTrip.{reads-write_all_sealed}

abbrev codes : ℕ → ℕ → ℕ
codes r i = (r * 7 + i * 3 + 5) % 65536

codes-IsU16 : (r i : ℕ) → IsU16 (codes r i)
codes-IsU16 r i = omega arith

abbrev entropy : ℕ → ℕ
entropy n = n % 256

-- Mask and padding from one shared stream.
abbrev hashes : Hashes
hashes = record { chunk_masking = some 0; global_padding = some 0; position = λ r. 0 }

abbrev plain : Hashes
plain = record { chunk_masking = none; global_padding = none; position = λ r. 0 }

abbrev packets : List Bytes
packets = (1 ∷ 2 ∷ []) ∷ (3 ∷ []) ∷ []

reads-write_all_example :
    (out : Bytes) × (h' : Hashes) × (drawn' : ℕ) × (StreamTrip.write_all codes codes-IsU16 entropy
        packets
        (StreamWriter.writer [] hashes 0)
      ≡ ok tt (StreamWriter.writer out h' drawn'))
    × (StreamTrip.reads codes codes-IsU16 entropy 20 packets
          (StreamTrip.reader codes (out ++ (9 ∷ [])) hashes)
        ≡ ok packets (StreamTrip.reader codes (9 ∷ []) h'))
reads-write_all_example =
    reads-write_all codes codes-IsU16 entropy 20 packets (9 ∷ []) hashes 0
      ((omega arith, omega arith, omega arith), ((omega arith, omega arith, omega arith), tt))

reads-write_all_sealed_example :
    (out : Bytes) × (h' : Hashes) × (nonce' : Bytes) × (count' : ℕ) × (drawn' : ℕ)
    × (AeadTrip.write_all codes toy_cipher toy_cipher-IsAead entropy packets (
          AeadTrip.writer codes toy_cipher toy_cipher-IsAead entropy [] hashes
            (replicate 12 0)
            65535
            0)
        ≡ ok tt (
            AeadTrip.writer codes toy_cipher toy_cipher-IsAead entropy out h' nonce' count' drawn'))
    × (AeadTrip.reads codes toy_cipher toy_cipher-IsAead entropy 20 packets
          (AeadTrip.reader codes toy_cipher (out ++ (9 ∷ [])) hashes (replicate 12 0) 65535)
        ≡ ok packets (AeadTrip.reader codes toy_cipher (9 ∷ []) h' nonce' count'))
reads-write_all_sealed_example =
    reads-write_all_sealed codes toy_cipher toy_cipher-IsAead entropy 20 packets (9 ∷ []) hashes
      (replicate 12 0) 65535 (omega arith)
      ((omega arith, omega arith, omega arith), ((omega arith, omega arith, omega arith), tt))

-- A reader without mask and padding before one chunk of three bytes.
abbrev plain_reader : StreamChunkReader
plain_reader = StreamTrip.reader codes (0 ∷ 3 ∷ 7 ∷ 8 ∷ 9 ∷ []) plain

abbrev chunk : Bytes
chunk = 7 ∷ 8 ∷ 9 ∷ []
