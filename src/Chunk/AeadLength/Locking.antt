-- ===== src/Chunk/AeadLength/Locking.antt =====
-- The mutex of AEADChunkWriter.Write.
use sing_vmess.Base.{
  ℕ, ◌%◌, ◌<◌, ◌≡◌, true, false, [], ◌∷◌, arith, length, upstream, blocked, ok, err, Bytes,
}
use sing_vmess.Chunk.Cipher.{Cipher}
use sing_vmess.Chunk.AeadLength.{
  AeadChunkWriter, seal_length, lock, unlock, send_padding, send_frame, write_length,
}

module _ (codes : ℕ → ℕ → ℕ) (c : Cipher) (entropy : ℕ → ℕ) where
  -- A frame that fails on the connection was started by taking the mutex, and has kept it.
  send_frame_fails :
      (pad : ℕ) (sealed p : Bytes) (w w' : AeadChunkWriter)
      → send_frame codes c entropy pad sealed p w ≡ err upstream w'
      → w'.locked ≡ true
  unfolding send_frame lock unlock send_padding
  send_frame_fails pad sealed p w w' e = ground arith

  send_frame_ends :
      (pad n : ℕ) (sealed p : Bytes) (w w' : AeadChunkWriter)
      → send_frame codes c entropy pad sealed p w ≡ ok n w'
      → (w'.locked ≡ false) × (n ≡ length p)
  unfolding send_frame lock unlock send_padding
  send_frame_ends pad n sealed p w w' e = ground arith

  send_frame_blocked :
      (pad : ℕ) (sealed p : Bytes) (w : AeadChunkWriter)
      → w.locked ≡ true
      → send_frame codes c entropy pad sealed p w ≡ err blocked w
  unfolding send_frame lock
  send_frame_blocked pad sealed p w e = rw e

  -- Whenever a Write of a packet that is not empty reports an error of the connection, every later
  -- Write of such a packet waits for ever, whatever the connection does by then.
  pub write_length_blocked :
      (p q : Bytes) (w w' : AeadChunkWriter)
      → 0 < length p
      → 0 < length q
      → write_length codes c entropy p w ≡ err upstream w'
      → (w'' : AeadChunkWriter) × (write_length codes c entropy q w' ≡ err blocked w'')
  unfolding write_length
  write_length_blocked [] q w w' hp hq e = absurd (omega arith)
  write_length_blocked (a ∷ p) [] w w' hp hq e = absurd (omega arith)
  write_length_blocked (a ∷ p) (b ∷ q) w w' hp hq e =
      let (pad, sealed, w1) = seal_length codes c entropy (length (a ∷ p) % 65536) w in
      let (pad2, sealed2, w2) = seal_length codes c entropy (length (b ∷ q) % 65536) w' in
      (
        w2,
        send_frame_blocked pad2 sealed2 (b ∷ q) w2
            (unfold seal_length in send_frame_fails pad sealed (a ∷ p) w1 w' e),
      )

  -- A Write of a packet on a free mutex that succeeds frees the mutex again.
  pub write_length_unlocks :
      (p : Bytes) (n : ℕ) (w w' : AeadChunkWriter)
      → w.locked ≡ false
      → write_length codes c entropy p w ≡ ok n w'
      → (w'.locked ≡ false) × (n ≡ length p)
  unfolding write_length
  write_length_unlocks [] n w w' free e = ground arith
  write_length_unlocks (a ∷ p) n w w' free e =
      let (pad, sealed, w1) = seal_length codes c entropy (length (a ∷ p) % 65536) w in
      send_frame_ends pad n sealed (a ∷ p) w1 w' e
