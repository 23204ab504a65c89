-- ===== src/Vless/Vision/Reshape.antt =====
-- The pieces of reshapeBuffer (vless/constant.go).
use sing_vmess.Base.{
  ℕ, zero, suc, ◌≤◌, ◌<◌, ◌≡◌, ap, ◌∙◌, inl, inr, false, Option, none, some, ◌++◌, append-nil,
  arith, ltb, Bool-cases, length, take, drop, take-append-drop, length-take, length-drop, All,
  concat, Bytes,
}
use sing_vmess.Vless.Vision.{last_index, buffer_limit, cut_at, reshape_buffer}

cut_at_bounds : (o : Option ℕ) → (0 < cut_at o) × (cut_at o ≤ buffer_limit)
unfolding cut_at
cut_at_bounds none = (omega arith, omega arith)
cut_at_bounds (some k) = (ground arith, ground arith)

-- reshapeBuffer, given as many turns as the buffer has bytes, cuts it into pieces that make up the buffer,
-- in their order, and none of which is longer than its limit.
pub reshape_buffer-concat :
    (fuel : ℕ) (b : Bytes)
    → length b ≤ fuel
    → (concat (reshape_buffer fuel b) ≡ b)
      × All (λ p. length p ≤ buffer_limit) (reshape_buffer fuel b)
unfolding reshape_buffer
reshape_buffer-concat zero b h = (append-nil b, (omega arith, tt))
reshape_buffer-concat (suc fuel) b h =
    let index = cut_at (last_index 0 b) in
    let (some_cut, limit) = cut_at_bounds (last_index 0 b) in
    let short_enough : ltb (length b) buffer_limit ≡ false → length (drop index b) ≤ fuel =
      λ e. ground (arith, length-drop index b) in
    elim (Bool-cases (ltb (length b) buffer_limit)) [
      | inl e ↦ rw e (append-nil b, (ground arith, tt))
      | inr e ↦
          let (whole, bounded) = reshape_buffer-concat fuel (drop index b) (short_enough e) in
          rw e (
            ap (λ r. take index b ++ r) whole ∙ take-append-drop index b,
            (omega (arith, length-take index b), bounded),
          )
    ]
