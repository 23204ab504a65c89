-- ===== src/Chunk/Stream/Writer.antt =====
-- The writer on a connection without faults.
use sing_vmess.Base.{
  ℕ, zero, suc, ◌+◌, ◌≡◌, ◌++◌, append-nil, arith, lt→ltb, ok, Bytes, open_sink, write_open,
}
use native.Mathlib.Nat.{add-zero}
use sing_vmess.Chunk.Hashes.{Hashes}
use sing_vmess.Chunk.Stream.{StreamChunkWriter, random_bytes, send_padding}

abbrev pub writer : Bytes → Hashes → ℕ → StreamChunkWriter
writer sent h drawn = record { upstream_out = open_sink sent; hashes = h; drawn = drawn }

module _ (codes : ℕ → ℕ → ℕ) (entropy : ℕ → ℕ) where
  pub send_padding_open :
      (n drawn : ℕ) (sent : Bytes) (h : Hashes)
      → send_padding codes entropy n
          (record { upstream_out = open_sink sent; hashes = h; drawn = drawn })
        ≡ ok tt (record {
          upstream_out = open_sink (sent ++ random_bytes entropy drawn n);
          hashes = h;
          drawn = drawn + n;
        })
  send_padding_open zero drawn sent h =
      unfold send_padding random_bytes in simp (append-nil, add-zero)
  send_padding_open (suc n) drawn sent h =
      unfold send_padding in rw (lt→ltb 0 (suc n) (omega arith), write_open)
