-- ===== src/Chunk/Checksum/RoundTrip.antt =====
-- The checksum layer, over StreamChunkWriter and StreamChunkReader as the code stacks them.
use sing_vmess.Base.{
  ℕ, ◌+◌, ◌*◌, ◌/◌, ◌%◌, ◌≤◌, ◌<◌, bit_xor, ◌≡◌, ap, ◌∙◌, [], ◌∷◌, ◌++◌, arith, length, All, ok,
  state_of, Bytes, IsByte, IsU16, put_u32, open_sink,
}
use sing_vmess.Chunk.Hashes.{Hashes}
use sing_vmess.Chunk.Stream.{StreamChunkWriter, read, write_with_checksum}
use sing_vmess.Chunk.Stream.Writer.{writer}
use sing_vmess.Chunk.Stream.Bounds.{write_with_checksum-write_stream}
use sing_vmess.Chunk.Stream.RoundTrip.{reader, hashes_after, frame, read-frame, write_stream-frame}
use sing_vmess.Chunk.Checksum.{fnv_write, sum32, u32, check, read_checksummed, write_checksummed}

fnv_write-lt : (p : Bytes) (hash : ℕ) → hash < 4294967296 → fnv_write hash p < 4294967296
unfolding fnv_write
fnv_write-lt [] hash h = h
fnv_write-lt (b ∷ bs) hash h =
    fnv_write-lt bs (bit_xor hash b * 16777619 % 4294967296) (omega arith)

sum32-lt : (p : Bytes) → sum32 p < 4294967296
unfolding sum32
sum32-lt p = fnv_write-lt p 2166136261 (omega arith)

put_u32-u32 :
    (n : ℕ)
    → n < 4294967296
    → u32 (n / 16777216 % 256) (n / 65536 % 256) (n / 256 % 256) (n % 256) ≡ n
put_u32-u32 n h = omega arith

check-put : {U : Type 0} (p : Bytes) (u : U) → check (put_u32 (sum32 p) ++ p) u ≡ ok p u
unfolding check
check-put p u = rw (put_u32-u32 (sum32 p) (sum32-lt p)) (ground arith)

-- For a connection that carries bytes: what the reader hands on had the right checksum in front of it.
pub check_sound :
    {U : Type 0} (q p : Bytes) (u v : U)
    → All IsByte q
    → check q u ≡ ok p v
    → (q ≡ put_u32 (sum32 p) ++ p) × (u ≡ v)
unfolding check
check_sound (a ∷ b ∷ c ∷ d ∷ q) p u v (ha, (hb, (hc, (hd, _)))) e =
    ground (arith, put_u32-u32 (sum32 q))
check_sound [] p u v h e = cc
check_sound (a ∷ []) p u v h e = cc
check_sound (a ∷ b ∷ []) p u v h e = cc
check_sound (a ∷ b ∷ c ∷ []) p u v h e = cc

-- A packet sent by Write of the checksum layer, over a StreamChunkWriter on a connection without
-- faults, is what the checksum layer's Read gives over a StreamChunkReader with the same hashes and a
-- slice that takes the packet and its checksum.
pub read_checksummed-write_checksummed :
    (codes : ℕ → ℕ → ℕ) (words : (r i : ℕ) → IsU16 (codes r i)) (entropy : ℕ → ℕ) (size : ℕ)
    (p rest : Bytes) (h : Hashes) (drawn : ℕ)
    → length p + 4 ≤ size
    → length p + 68 ≤ 65536
    → (out : Bytes) × (let w =
          state_of (write_checksummed (write_with_checksum codes entropy) p (writer [] h drawn)) in
        w.upstream_out ≡ open_sink out)
      × (h' : Hashes) × (read_checksummed (read codes size) (reader codes (out ++ rest) h)
          ≡ ok p (reader codes rest h'))
unfolding read_checksummed write_checksummed
read_checksummed-write_checksummed codes words entropy size p rest h drawn fits small =
    let q = put_u32 (sum32 p) ++ p in
    (
      frame codes words entropy h drawn q,
      ap (λ (w : StreamChunkWriter). w.upstream_out)
          (write_with_checksum-write_stream codes entropy (sum32 p) p [] h drawn
            ∙ ap state_of
                (write_stream-frame codes words entropy q [] h drawn (omega arith) (omega arith))),
      hashes_after codes words entropy h q,
      rw (
        read-frame codes words entropy size drawn q rest h (omega arith) (omega arith)
            (omega arith),
        check-put,
      ),
    )
