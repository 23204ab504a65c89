-- ===== src/Chunk/Hashes.antt =====
-- The two sha3.ShakeHash objects that a chunk reader or writer holds: the mask of the length and the
-- padding. They are references, nil or into a store of streams, for CreateReader and CreateWriter may
-- make both the same object, and then a draw from one moves the other.
use sing_vmess.Base.{
  ℕ, ◌+◌, ◌%◌, ◌<◌, bit_xor, ◌≡◌, refl, Option, none, some, arith, ◌==◌, if◌then◌else◌,
  bit_xor_cancel, bit_xor-lt, IsU16,
}

-- MaxPaddingSize of protocol.go.
abbrev pub max_padding_size : ℕ
max_padding_size = 64

pub record Hashes : Type 0 where
  pub chunk_masking : Option ℕ
  pub global_padding : Option ℕ
  pub position : ℕ → ℕ

-- One more 16-bit word has been taken from stream `r`.
unfoldable pub advance : (ℕ → ℕ) → ℕ → ℕ → ℕ
advance f r q = if r == q then f q + 1 else f q

-- `codes r i` is the i-th big-endian 16-bit word of stream `r`, whose content the SHAKE library gives.
module _ (codes : ℕ → ℕ → ℕ) where
  unfoldable pub padding_of : Option ℕ → Hashes → ℕ × Hashes
  padding_of none h = (0, h)
  padding_of (some r) h =
      (codes r (h.position r) % max_padding_size, record h { position = advance h.position r })

  -- `paddingLen = hashCode % MaxPaddingSize`, where the padding hash is there.
  unfoldable pub draw_padding : Hashes → ℕ × Hashes
  draw_padding h = padding_of h.global_padding h

  unfoldable pub mask_of : Option ℕ → ℕ → Hashes → ℕ × Hashes
  mask_of none n h = (n, h)
  mask_of (some r) n h =
      (bit_xor n (codes r (h.position r)), record h { position = advance h.position r })

  -- `length ^= hashCode`, where the mask is there.
  unfoldable pub draw_mask : ℕ → Hashes → ℕ × Hashes
  draw_mask n h = mask_of h.chunk_masking n h

  padding_of-lt : (o : Option ℕ) (h : Hashes) → (padding_of o h).0 < 64
  unfolding padding_of
  padding_of-lt none h = omega arith
  padding_of-lt (some r) h = omega arith

  pub draw_padding-lt : (h : Hashes) → (draw_padding h).0 < 64
  unfolding draw_padding
  draw_padding-lt h = padding_of-lt h.global_padding h

  mask_of_cancel :
      (o : Option ℕ) (n : ℕ) (h : Hashes) → mask_of o (mask_of o n h).0 h ≡ (n, (mask_of o n h).1)
  unfolding mask_of
  mask_of_cancel none n h = refl
  mask_of_cancel (some r) n h = rw bit_xor_cancel

  -- Masking the masked length from the same state gives the length, and the same new state.
  pub draw_mask_cancel :
      (n : ℕ) (h : Hashes) → draw_mask (draw_mask n h).0 h ≡ (n, (draw_mask n h).1)
  unfolding draw_mask
  draw_mask_cancel n h = mask_of_cancel h.chunk_masking n h

  module _ (words : (r i : ℕ) → IsU16 (codes r i)) where
    mask_of-lt : (o : Option ℕ) (n : ℕ) (h : Hashes) → IsU16 n → IsU16 (mask_of o n h).0
    unfolding mask_of
    mask_of-lt none n h p = p
    mask_of-lt (some r) n h p = bit_xor-lt n (codes r (h.position r)) p (words r (h.position r))

    pub draw_mask-lt : (n : ℕ) (h : Hashes) → IsU16 n → IsU16 (draw_mask n h).0
    unfolding draw_mask
    draw_mask-lt n h p = mask_of-lt h.chunk_masking n h p
