-- ===== src/Encryption/Nonce.antt =====
-- increaseNonce of vless/encryption/common.go: a big-endian counter in a slice of bytes.
use sing_vmess.Base.{
  ℕ, suc, ◌+◌, ◌*◌, ◌%◌, ◌^◌, ◌≤◌, ◌<◌, ◌≡◌, refl, ap, ap₂, ◌∙◌, ◌↔◌, ◌⊎◌, inl, inr, Bool, true,
  false, [], ◌∷◌, arith, ◌==◌, if◌then◌else◌, ==_iff, Bool-cases, length, replicate, All, Bytes,
  IsByte,
}
use native.Mathlib.Nat.{pow-suc}

-- One round: what the carry out of the bytes behind it does to byte `b`.
carry_into : ℕ → Bytes × Bool → Bytes × Bool
carry_into b (rest, true) = (((b + 1) % 256) ∷ rest, (b + 1) % 256 == 0)
carry_into b (rest, false) = (b ∷ rest, false)

-- The loop, from the last byte on: the new bytes, and whether the carry goes on past the first.
carry_in : Bytes → Bytes × Bool
unfolding carry_into
carry_in [] = ([], true)
carry_in (b ∷ bs) = carry_into b (carry_in bs)

pub increase_nonce : Bytes → Bytes
unfolding carry_in
increase_nonce n = (carry_in n).0

-- maxNonce: twelve bytes 0xFF.
abbrev pub max_nonce : Bytes
max_nonce = replicate 12 255

-- bytes.Equal.
pub equal : (left right : Bytes) → Bool
equal [] [] = true
equal [] (r ∷ rs) = false
equal (l ∷ ls) [] = false
equal (l ∷ ls) (r ∷ rs) = if l == r then equal ls rs else false

pub equal_iff : (left right : Bytes) → (equal left right ≡ true) ↔ (left ≡ right)
unfolding equal
equal_iff [] [] = ground arith
equal_iff [] (r ∷ rs) = ground arith
equal_iff (l ∷ ls) [] = ground arith
equal_iff (l ∷ ls) (r ∷ rs) = let later = equal_iff ls rs in ground (arith, later)

-- The number that the bytes write.
abbrev pub value : Bytes → ℕ
value [] = 0
value (b ∷ bs) = b * 256 ^ length bs + value bs

value-lt : (n : Bytes) → All IsByte n → value n < 256 ^ length n
value-lt [] h = omega arith
value-lt (b ∷ bs) h =
    let below : value bs < 256 ^ length bs = value-lt bs h.1 in
    let top : b * 256 ^ length bs ≤ 255 * 256 ^ length bs = grind arith in
    omega (arith, pow-suc 256 (length bs))

-- The counter has moved by one from `n` to `r.0`, and `r.1` says that it wrapped to zero.
record IsNext (n : Bytes) (r : Bytes × Bool) : Type 0 where
  same_length : length r.0 ≡ length n
  wrapped : r.1 ≡ true → (value n + 1 ≡ 256 ^ length n) × (value r.0 ≡ 0)
  moved : r.1 ≡ false → value r.0 ≡ value n + 1
  bytes : All IsByte r.0

carry_into-IsNext :
    (b : ℕ) (bs rest : Bytes) (carry : Bool)
    → IsByte b
    → IsNext bs (rest, carry)
    → IsNext (b ∷ bs) (carry_into b (rest, carry))
unfolding carry_into
carry_into-IsNext b bs rest false hb h = record {
  same_length = ap suc h.same_length;
  wrapped = λ e. cc;
  moved = λ e. rw (h.same_length, h.moved refl) (omega arith);
  bytes = (hb, h.bytes);
}
carry_into-IsNext b bs rest true hb h = elim (Bool-cases (b == 255)) [
  | inl last ↦
      let top : b ≡ 255 = (==_iff b 255).0 last in
      rw (top) (record {
        same_length = ap suc h.same_length;
        wrapped = λ e. (
          omega (arith, (h.wrapped refl).0, pow-suc 256 (length bs)),
          omega (arith, (h.wrapped refl).1),
        );
        moved = λ e. cc;
        bytes = (omega arith, h.bytes);
      })
  | inr below ↦
      let next : (b + 1) % 256 ≡ b + 1 = ground arith in
      rw next (record {
        same_length = ap suc h.same_length;
        wrapped = λ e. absurd (ground arith);
        moved = λ e. rw (h.same_length, (h.wrapped refl).1) (omega (arith, (h.wrapped refl).0));
        bytes = (ground arith, h.bytes);
      })
]

carry_in-IsNext : (n : Bytes) → All IsByte n → IsNext n (carry_in n)
unfolding carry_in
carry_in-IsNext [] h = record {
  same_length = refl;
  wrapped = λ e. (omega arith, refl);
  moved = λ e. cc;
  bytes = tt;
}
carry_in-IsNext (b ∷ bs) h =
    carry_into-IsNext b bs (carry_in bs).0 (carry_in bs).1 h.0 (carry_in-IsNext bs h.1)

-- increaseNonce adds one to the number that the bytes write, modulo the numbers of that length, and
-- leaves as many bytes.
pub increase_nonce-value :
    (n : Bytes)
    → All IsByte n
    → (length (increase_nonce n) ≡ length n)
      × All IsByte (increase_nonce n)
      × (((value n + 1 < 256 ^ length n) × (value (increase_nonce n) ≡ value n + 1))
          ⊎ ((value n + 1 ≡ 256 ^ length n) × (value (increase_nonce n) ≡ 0)))
unfolding increase_nonce
increase_nonce-value n h =
    let s = carry_in-IsNext n h in
    (
      s.same_length,
      s.bytes,
      elim (Bool-cases (carry_in n).1) [
        | inl up ↦ inr (s.wrapped up)
        | inr stay ↦ inl (
          omega (
            arith,
            s.moved stay,
            value-lt (carry_in n).0 s.bytes,
            ap (λ (k : ℕ). 256 ^ k) s.same_length,
          ),
          s.moved stay,
        )
      ],
    )

top_byte : (b p v : ℕ) → IsByte b → v < p → b * p + v + 1 ≡ 256 * p → b ≡ 255
top_byte b p v hb hv e = elim (Bool-cases (b == 255)) [
  | inl h ↦ (==_iff b 255).0 h
  | inr h ↦
      let low : b ≤ 254 = ground arith in
      let product : b * p ≤ 254 * p = grind arith in absurd (omega arith)
]

-- Only the nonce that the code tests for wraps.
max_of_value :
    (n : Bytes) → All IsByte n → value n + 1 ≡ 256 ^ length n → n ≡ replicate (length n) 255
max_of_value [] h e = refl
max_of_value (b ∷ bs) h e =
    let below = value-lt bs h.1 in
    let top : b ≡ 255 =
      top_byte b (256 ^ length bs) (value bs) h.0 below (omega (arith, pow-suc 256 (length bs))) in
    let e' : 255 * 256 ^ length bs + value bs + 1 ≡ 256 ^ suc (length bs) = rw top at e in
    ap₂ ◌∷◌ top (max_of_value bs h.1 (omega (arith, pow-suc 256 (length bs))))

-- Of twelve bytes the number grows by one, unless they are maxNonce, from which it goes to zero: the test
-- for maxNonce that the records make is exactly the test for a nonce that is about to come again.
pub increase_nonce_max :
    (n : Bytes)
    → All IsByte n
    → length n ≡ 12
    → value (increase_nonce n) ≡ (if equal n max_nonce then 0 else value n + 1)
increase_nonce_max n h twelve = elim ((increase_nonce-value n h).2) [
  | inl (lt, up) ↦
      let lt' : value n + 1 < 256 ^ 12 = rw twelve at lt in
      let other : equal n max_nonce ≡ false =
        ground (arith, (equal_iff n max_nonce).0, λ (e : n ≡ max_nonce). ap value e) in
      rw other up
  | inr (top, wraps) ↦
      let full : n ≡ max_nonce = max_of_value n h top ∙ ap (λ (k : ℕ). replicate k 255) twelve in
      rw ((equal_iff n max_nonce).1 full) wraps
]
