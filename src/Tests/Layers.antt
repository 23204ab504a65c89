-- ===== src/Tests/Layers.antt =====
-- Inputs for the sealed chunks and the checksums (chunk_aead.go, chunk_length_aead.go,
-- chunk_stream_checksum.go) and the choice of layers (protocol.go).
use sing_vmess.Base.{
  ℕ, ◌+◌, ◌*◌, ◌%◌, ◌≡◌, refl, Bool, false, Option, none, some, List, [], ◌∷◌, ◌++◌, arith,
  replicate, blocked, ok, err, Prog, state_of, Bytes, IsU16, write, open_sink, write_with,
}
use sing_vmess.Chunk.Hashes.{Hashes, draw_padding, padding_of, draw_mask, mask_of}
use sing_vmess.Chunk.Cipher.{Cipher, toy_cipher, toy_cipher-IsAead, put_count, next_count}
use sing_vmess.Chunk.Stream as StreamChunk
use sing_vmess.Chunk.Stream.Writer as StreamWriter
use sing_vmess.Chunk.Stream.RoundTrip as StreamTrip
use sing_vmess.Chunk.Aead.{read_sealed, write_sealed}
use sing_vmess.Chunk.Aead.RoundTrip.{read_sealed-write_sealed}
use sing_vmess.Chunk.AeadLength.{
  AeadChunkWriter, write_length, seal_length, lock, unlock, send_padding, send_frame,
}
use sing_vmess.Chunk.AeadLength.Locking.{write_length_blocked}
use sing_vmess.Chunk.Checksum.{read_checksummed, write_checksummed}
use sing_vmess.Chunk.Checksum.RoundTrip.{read_checksummed-write_checksummed}
use sing_vmess.Protocol.{Keys}

abbrev codes : ℕ → ℕ → ℕ
codes r i = (r * 7 + i * 3 + 5) % 65536

codes-IsU16 : (r i : ℕ) → IsU16 (codes r i)
codes-IsU16 r i = omega arith

abbrev entropy : ℕ → ℕ
entropy n = n % 256

abbrev hashes : Hashes
hashes = record { chunk_masking = some 0; global_padding = some 0; position = λ r. 0 }

abbrev plain : Hashes
plain = record { chunk_masking = none; global_padding = none; position = λ r. 0 }

abbrev packet : Bytes
packet = 1 ∷ 2 ∷ []

abbrev nonce : Bytes
nonce = replicate 12 0

-- An upstream that keeps the chunk that it was given.
abbrev keep : Bytes → Prog Bytes (Unit {0})
keep b u = ok tt b

abbrev fetch : Prog Bytes Bytes
fetch u = ok u u

abbrev sealed : Bytes
sealed = toy_cipher.seal (put_count 65535 nonce) packet []

read_sealed-write_sealed_example :
    (write_sealed toy_cipher keep packet
        (record { upstream_state = []; nonce = nonce; nonce_count = 65535 })
      ≡ ok tt (record {
        upstream_state = sealed;
        nonce = put_count 65535 nonce;
        nonce_count = next_count 65535;
      }))
    × (read_sealed toy_cipher fetch
          (record { upstream_state = sealed; nonce = nonce; nonce_count = 65535 })
        ≡ ok packet (record {
          upstream_state = sealed;
          nonce = put_count 65535 nonce;
          nonce_count = next_count 65535;
        }))
read_sealed-write_sealed_example =
    read_sealed-write_sealed toy_cipher toy_cipher-IsAead keep fetch packet nonce 65535 [] sealed
      sealed sealed refl refl

-- A cipher that opens nothing.
abbrev closed_cipher : Cipher
closed_cipher = record { seal = λ n p ad. p; unseal = λ n p ad. none }

abbrev writer_on : List (Option ℕ) → Bool → AeadChunkWriter
writer_on faults locked = record {
  upstream_out = record { sent = []; faults = faults };
  hashes = plain;
  nonce = nonce;
  nonce_count = 0;
  drawn = 0;
  locked = locked;
}

-- The first Write fails on the connection after three bytes.
abbrev failed_writer : AeadChunkWriter
failed_writer =
    state_of (write_length codes toy_cipher entropy packet (writer_on (some 3 ∷ []) false))

write_length_blocked_example :
    (w : AeadChunkWriter) × (write_length codes toy_cipher entropy packet failed_writer
      ≡ err blocked w)
unfolding write_length seal_length lock unlock send_padding send_frame draw_padding padding_of
    draw_mask mask_of write write_with
write_length_blocked_example =
    write_length_blocked codes toy_cipher entropy packet packet (writer_on (some 3 ∷ []) false)
      failed_writer (omega arith) (omega arith) refl

abbrev done_writer : AeadChunkWriter
done_writer = state_of (write_length codes toy_cipher entropy packet (writer_on [] false))

read_checksummed-write_checksummed_example :
    (out : Bytes) × (let w = state_of (
        write_checksummed
          (StreamChunk.write_with_checksum codes entropy)
          packet
          (StreamWriter.writer [] hashes 0)) in
      w.upstream_out ≡ open_sink out)
    × (h' : Hashes) × (read_checksummed
          (StreamChunk.read codes 9)
          (StreamTrip.reader codes (out ++ (5 ∷ [])) hashes)
        ≡ ok packet (StreamTrip.reader codes (5 ∷ []) h'))
read_checksummed-write_checksummed_example =
    read_checksummed-write_checksummed codes codes-IsU16 entropy 9 packet (5 ∷ []) hashes 0
      (omega arith) (omega arith)

abbrev keys : Keys
keys = record { request_key = 1 ∷ []; request_nonce = 2 ∷ []; key = 3 ∷ []; nonce = 4 ∷ [] }
