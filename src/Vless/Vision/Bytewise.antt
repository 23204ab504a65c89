-- ===== src/Vless/Vision/Bytewise.antt =====
-- unPadding, byte by byte (vless/vision.go).
use sing_vmess.Base.{
  ℕ, zero, suc, ◌+◌, ◌-◌, ◌≤◌, ◌<◌, ◌≡◌, refl, sym, ap, ◌∙◌, subst, inl, inr, true, false, Option,
  none, some, List, [], ◌∷◌, ◌++◌, append-nil, append_assoc, arith, ltb, ◌==◌, if◌then◌else◌,
  lt→ltb, Bool-cases, length, take, drop, length-append, take-append-drop, length-take, length-drop,
  drop_ge, concat, Bytes, short,
}
use sing_vmess.Vless.Vision.{Unpadder, enter_block, unpad_loop}

-- An Unpadder in a block, with so much of its content and of its padding to come.
abbrev pub in_block : ℕ → ℕ → Unpadder → Unpadder
in_block content padding u = record u { remaining = some (content, padding) }

-- A header as far as it has come.
unfoldable pub fill : Bytes → Unpadder → Unpadder
fill got u = if ltb (length got) 5 then record u { header = got } else enter_block got u

unfoldable pub header_byte : ℕ → Unpadder → Bytes × Unpadder
header_byte x u =
    if u.current_command == 1 then (x ∷ [], u) else ([], fill (u.header ++ (x ∷ [])) u)

unfoldable pub eat_in : Option (ℕ × ℕ) → ℕ → Unpadder → Bytes × Unpadder
eat_in none x u = (x ∷ [], u)
eat_in (some (suc content, padding)) x u = (x ∷ [], in_block content padding u)
eat_in (some (zero, suc padding)) x u = ([], in_block 0 padding u)
eat_in (some (zero, zero)) x u = header_byte x u

-- What a byte gives, and leaves.
unfoldable pub eats : Bytes → Unpadder → Bytes × Unpadder
eats [] u = ([], u)
eats (x ∷ b) u =
    let after = eat_in u.remaining x u in (after.0 ++ (eats b after.1).0, (eats b after.1).1)

-- Bytes in front of what is given.
abbrev pub in_front : Bytes → Bytes × Unpadder → Bytes × Unpadder
in_front p r = (p ++ r.0, r.1)

pub eats-append :
    (a b : Bytes) (u : Unpadder) → eats (a ++ b) u ≡ in_front (eats a u).0 (eats b (eats a u).1)
unfolding eats
eats-append [] b u = refl
eats-append (x ∷ a) b u =
    let after = eat_in u.remaining x u in
    ap (in_front after.0) (eats-append a b after.1)
    ∙ ap (λ y. (y, (eats b (eats a after.1).1).1))
        (sym (append_assoc after.0 (eats a after.1).0 (eats b (eats a after.1).1).0))

pub eats-content :
    (p rest : Bytes) (n c k : ℕ) (u : Unpadder)
    → n ≡ length p + c
    → eats (p ++ rest) (in_block n k u) ≡ in_front p (eats rest (in_block c k u))
unfolding eats eat_in
eats-content [] rest n c k u e = ap (λ m. eats rest (in_block m k u)) (omega arith)
eats-content (x ∷ p) rest zero c k u e = absurd (omega arith)
eats-content (x ∷ p) rest (suc n) c k u e =
    ap (in_front (x ∷ [])) (eats-content p rest n c k u (omega arith))

pub eats-padding :
    (f rest : Bytes) (n k : ℕ) (u : Unpadder)
    → n ≡ length f + k
    → eats (f ++ rest) (in_block 0 n u) ≡ eats rest (in_block 0 k u)
unfolding eats eat_in
eats-padding [] rest n k u e = ap (λ m. eats rest (in_block 0 m u)) (omega arith)
eats-padding (x ∷ f) rest zero k u e = absurd (omega arith)
eats-padding (x ∷ f) rest (suc n) k u e = eats-padding f rest n k u (omega arith)

step :
    (x : ℕ) (b o : Bytes) (u v : Unpadder)
    → eat_in u.remaining x u ≡ (o, v)
    → eats (x ∷ b) u ≡ in_front o (eats b v)
unfolding eats
step x b o u v e = ap (λ r. in_front r.0 (eats b r.1)) e

pub eats-raw :
    (b : Bytes) (u : Unpadder)
    → (u.current_command == 1) ≡ true
    → eats b (in_block 0 0 u) ≡ (b, in_block 0 0 u)
unfolding eat_in header_byte
eats-raw [] u h = unfold eats in refl
eats-raw (x ∷ b) u h =
    step x b (x ∷ []) (in_block 0 0 u) (in_block 0 0 u) (rw h refl)
    ∙ ap (in_front (x ∷ [])) (eats-raw b u h)

fill_again : (got h : Bytes) (u : Unpadder) → fill got (record u { header = h }) ≡ fill got u
unfolding fill enter_block
fill_again got h u = elim (Bool-cases (ltb (length got) 5)) [
  | inl small ↦ rw small refl
  | inr full ↦ rw full refl
]

pub eats-header :
    (x : ℕ) (q rest : Bytes) (u : Unpadder)
    → (u.current_command == 1) ≡ false
    → length (u.header ++ (x ∷ q)) ≤ 5
    → eats (x ∷ (q ++ rest)) (in_block 0 0 u)
      ≡ eats rest (fill (u.header ++ (x ∷ q)) (in_block 0 0 u))
unfolding eat_in header_byte
eats-header x [] rest u h le =
    step x rest [] (in_block 0 0 u) (fill (u.header ++ (x ∷ [])) (in_block 0 0 u)) (rw h refl)
eats-header x (y ∷ q) rest u h le =
    let got = u.header ++ (x ∷ []) in
    let whole : got ++ (y ∷ q) ≡ u.header ++ (x ∷ (y ∷ q)) =
      append_assoc u.header (x ∷ []) (y ∷ q) in
    let small : ltb (length got) 5 ≡ true =
      lt→ltb _ _
        (omega (arith, length-append u.header (x ∷ []), length-append u.header (x ∷ (y ∷ q)))) in
    step x (y ∷ (q ++ rest)) [] (in_block 0 0 u)
      (record u { remaining = some (0, 0); header = got }) (unfold fill in rw (h, small) refl)
    ∙ eats-header y q rest (record u { header = got }) h (subst (λ b. length b ≤ 5) (sym whole) le)
    ∙ ap (λ b. eats rest (fill b (in_block 0 0 (record u { header = got })))) whole
    ∙ ap (eats rest) (fill_again (u.header ++ (x ∷ (y ∷ q))) got (in_block 0 0 u))

-- The bytes and the state that the loop gives.
abbrev pub outcome : List Bytes × Unpadder → Bytes × Unpadder
outcome r = (concat r.0, r.1)

content_loop :
    (fuel c k x : ℕ) (b : Bytes) (u : Unpadder)
    → let rest =
        unpad_loop fuel
          (suc c - length (x ∷ b))
          k
          (drop (suc c) (x ∷ b))
          (in_block (suc c - length (x ∷ b)) k u) in
      outcome rest ≡ eats (drop (suc c) (x ∷ b)) (in_block (suc c - length (x ∷ b)) k u)
      → outcome (unpad_loop (suc fuel) (suc c) k (x ∷ b) (in_block (suc c) k u))
        ≡ eats (x ∷ b) (in_block (suc c) k u)
unfolding unpad_loop
content_loop fuel c k x b u ih =
    let left = suc c - length (x ∷ b) in
    let more : (suc c == 0) ≡ false = ground arith in
    let some_content : ltb 0 (suc c) ≡ true = lt→ltb _ _ (omega arith) in
    rw (more, some_content)
      (ap (in_front (take (suc c) (x ∷ b))) ih
        ∙ sym (
            eats-content (take (suc c) (x ∷ b)) (drop (suc c) (x ∷ b)) (suc c) left k u
              (omega (arith, length-take (suc c) (x ∷ b))))
        ∙ ap (λ y. eats y (in_block (suc c) k u)) (take-append-drop (suc c) (x ∷ b)))

padding_loop :
    (fuel k x : ℕ) (b : Bytes) (u : Unpadder)
    → let rest =
        unpad_loop fuel 0
          (suc k - length (x ∷ b))
          (drop (suc k) (x ∷ b))
          (in_block 0 (suc k - length (x ∷ b)) u) in
      outcome rest ≡ eats (drop (suc k) (x ∷ b)) (in_block 0 (suc k - length (x ∷ b)) u)
      → outcome (unpad_loop (suc fuel) 0 (suc k) (x ∷ b) (in_block 0 (suc k) u))
        ≡ eats (x ∷ b) (in_block 0 (suc k) u)
unfolding unpad_loop
padding_loop fuel k x b u ih =
    let left = suc k - length (x ∷ b) in
    let more : (suc k == 0) ≡ false = ground arith in
    rw more (
      ih
      ∙ sym (
          eats-padding (take (suc k) (x ∷ b)) (drop (suc k) (x ∷ b)) (suc k) left u
            (omega (arith, length-take (suc k) (x ∷ b))))
      ∙ ap (λ y. eats y (in_block 0 (suc k) u)) (take-append-drop (suc k) (x ∷ b)))

header_step :
    (x : ℕ) (b : Bytes) (u : Unpadder)
    → (u.current_command == 1) ≡ false
    → length u.header < 5
    → let m = 4 - length u.header in
      eats (x ∷ b) (in_block 0 0 u)
      ≡ eats (drop m b) (fill (u.header ++ (x ∷ take m b)) (in_block 0 0 u))
header_step x b u other short =
    let m = 4 - length u.header in
    ap (λ y. eats (x ∷ y) (in_block 0 0 u)) (sym (take-append-drop m b))
    ∙ eats-header x (take m b) (drop m b) u other
        (omega (arith, length-append u.header (x ∷ take m b), length-take m b))

header_loop :
    (fuel x : ℕ) (b : Bytes) (u : Unpadder)
    → length u.header < 5
    → ((c k : ℕ) (rest : Bytes) (v : Unpadder)
        → length rest ≤ length b
        → length v.header < 5
        → outcome (unpad_loop fuel c k rest (in_block c k v)) ≡ eats rest (in_block c k v))
    → outcome (unpad_loop (suc fuel) 0 0 (x ∷ b) (in_block 0 0 u)) ≡ eats (x ∷ b) (in_block 0 0 u)
unfolding unpad_loop
header_loop fuel x b u short ih = elim (Bool-cases (u.current_command == 1)) [
  | inl end ↦
      rw end (ap (λ y. (y, in_block 0 0 u)) (append-nil (x ∷ b)) ∙ sym (eats-raw (x ∷ b) u end))
  | inr other ↦
      let m = 4 - length u.header in
      let got = u.header ++ (x ∷ take m b) in
      let sizes : 5 - length u.header ≡ suc m = omega arith in
      let spec = header_step x b u other short in
      rw (other, sizes)
        (elim (Bool-cases (ltb (length got) 5)) [
          | inl small ↦
              let none_left : drop m b ≡ [] =
                drop_ge m b
                  (ground (arith, length-append u.header (x ∷ take m b), length-take m b)) in
              rw small (unfold fill in sym (spec ∙ (rw (small, none_left) (unfold eats in refl))))
          | inr full ↦ rw full (
              unfold fill enter_block in
              ih _ _ (drop m b) (enter_block got (in_block 0 0 u)) (omega (arith, length-drop m b))
                (omega arith)
              ∙ sym (spec ∙ (rw full refl)))
        ])
]

-- The loop of unPadding is the steps of its bytes, with enough fuel.
pub unpad_loop-eats :
    (fuel c k : ℕ) (b : Bytes) (u : Unpadder)
    → length b ≤ fuel
    → length u.header < 5
    → outcome (unpad_loop fuel c k b (in_block c k u)) ≡ eats b (in_block c k u)
unpad_loop-eats zero c k [] u h short = unfold unpad_loop eats in refl
unpad_loop-eats (suc fuel) c k [] u h short = unfold unpad_loop eats in refl
unpad_loop-eats zero c k (x ∷ b) u h short = absurd (omega arith)
unpad_loop-eats (suc fuel) (suc c) k (x ∷ b) u h short = content_loop fuel c k x b u (
    unpad_loop-eats fuel (suc c - length (x ∷ b)) k (drop (suc c) (x ∷ b)) u
      (omega (arith, length-drop (suc c) (x ∷ b))) short)
unpad_loop-eats (suc fuel) zero (suc k) (x ∷ b) u h short = padding_loop fuel k x b u (
    unpad_loop-eats fuel 0 (suc k - length (x ∷ b)) (drop (suc k) (x ∷ b)) u
      (omega (arith, length-drop (suc k) (x ∷ b))) short)
unpad_loop-eats (suc fuel) zero zero (x ∷ b) u h short =
    header_loop fuel x b u short
      (λ c k rest v le small. unpad_loop-eats fuel c k rest v (omega arith) small)
