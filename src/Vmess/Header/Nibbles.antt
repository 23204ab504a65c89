-- ===== src/Vmess/Header/Nibbles.antt =====
-- The byte of the padding length and the security, in two halves (client.go: encodeHeader; service.go: NewConnection).
use sing_vmess.Base.{
  ℕ, zero, suc, ◌/◌, ◌%◌, ◌<◌, ◌≡◌, refl, inl, inr, Bool, true, ◌&&◌, arith, ◌==◌, ==_iff,
  Bool-cases,
}
use sing_vmess.Vmess.Header.{padding_and_security}

-- A test of all numbers below a bound.
below : ℕ → (ℕ → Bool) → Bool
below zero f = true
below (suc n) f = f n && below n f

below_sound : (n i : ℕ) (f : ℕ → Bool) → below n f ≡ true → i < n → f i ≡ true
unfolding below
below_sound zero i f e h = absurd (omega arith)
below_sound (suc n) i f e h = elim (Bool-cases (i == n)) [
  | inl same ↦ rw ((==_iff i n).0 same) (ground arith)
  | inr other ↦ below_sound n i f (ground arith) (ground (arith, (==_iff i n).1))
]

halves : ℕ → ℕ → Bool
halves p s = padding_and_security p s / 16 == p && padding_and_security p s % 16 == s

all_halves : below 16 (λ p. below 16 (halves p)) ≡ true
unfolding below halves
all_halves = refl

pub padding_and_security-halves :
    (p s : ℕ)
    → p < 16
    → s < 16
    → (padding_and_security p s / 16 ≡ p) × (padding_and_security p s % 16 ≡ s)
unfolding halves
padding_and_security-halves p s hp hs =
    let both : halves p s ≡ true =
      below_sound 16 s (halves p) (below_sound 16 p (λ q. below 16 (halves q)) all_halves hp) hs in
    let left : (padding_and_security p s / 16 == p) ≡ true = ground arith in
    let right : (padding_and_security p s % 16 == s) ≡ true = ground arith in
    ((==_iff _ _).0 left, (==_iff _ _).0 right)
