-- ===== src/Encryption/Padding/Bounds.antt =====
-- How long the padding of the handshake is (vless/encryption/common.go: parsePadding, createPadding).
use sing_vmess.Base.{
  ℕ, suc, ◌+◌, ◌-◌, ◌%◌, ◌^◌, ◌≤◌, ◌<◌, min, ◌≡◌, ◌∙◌, refl, subst, ◌⊎◌, inl, inr, false, ◌&&◌,
  ◌||◌, Option, none, some, List, [], ◌∷◌, ◌++◌, arith, ltb, ◌==◌, ==_iff, Bool-cases, get_or, drop,
  ok, some-injective, some-ne-none, Bytes,
}
use sing_vmess.Encryption.Padding.{
  min_padding_length, max_total_padding, Segment, Plan, max_of, rand_between, draw_segment,
  draw_all, sum_from, int_limit, add_int, create_padding, parse_segment, take_segment, after,
  parse_segments, within_total, parse_padding,
}

-- The most that a plan can draw, and what it has drawn, as numbers without a bound.
unfoldable pub total : List Segment → ℕ
total [] = 0
total (y ∷ ys) = max_of y.low y.high + total ys

pub sum : List ℕ → ℕ
sum [] = 0
sum (l ∷ ls) = l + sum ls

sum_from-sum : (ls : List ℕ) (n : ℕ) → n + sum ls < int_limit → sum_from n ls ≡ n + sum ls
unfolding sum_from sum
sum_from-sum [] n h = omega arith
sum_from-sum (l ∷ ls) n h =
    let fits : add_int n l ≡ n + l = omega arith in
    rw fits (sum_from-sum ls (n + l) (omega arith) ∙ omega arith)

total-snoc :
    (ys : List Segment) (y : Segment) → total (ys ++ (y ∷ [])) ≡ total ys + max_of y.low y.high
unfolding total
total-snoc [] y = omega arith
total-snoc (z ∷ ys) y = omega (arith, total-snoc ys y)

-- The first triple is always drawn from, and is long enough.
IsFirst : List Segment → Type 0
IsFirst [] = ⊥
IsFirst (y ∷ ys) = (100 ≤ y.chance) × (min_padding_length ≤ y.low) × (min_padding_length ≤ y.high)

IsFirst-append : (ys zs : List Segment) → IsFirst ys → IsFirst (ys ++ zs)
unfolding IsFirst
IsFirst-append [] zs first = absurd first
IsFirst-append (y ∷ ys) zs first = first

IsGood : Plan → Type 0
IsGood p = IsFirst p.padding_lens × (p.max_len ≡ total p.padding_lens % int_limit)

take_segment-first :
    (y : Segment) (q : Plan)
    → take_segment 0 y (record { padding_lens = []; padding_gaps = []; max_len = 0 }) ≡ some q
    → IsGood q
unfolding take_segment IsGood IsFirst total
take_segment-first y q e =
    let small =
      ltb y.chance 100 || (ltb y.low min_padding_length || ltb y.high min_padding_length) in
    elim (Bool-cases small) [
      | inl refused ↦ absurd (some-ne-none (rw refused at e))
      | inr fine ↦
          let taken = some-injective (rw fine at e) in
          let good : (100 ≤ y.chance)
              × (min_padding_length ≤ y.low)
              × (min_padding_length ≤ y.high) =
            (ground arith, ground arith, ground arith) in
          subst IsGood taken (good, omega arith)
    ]

take_segment-next :
    (i : ℕ) (y : Segment) (p q : Plan) → IsGood p → take_segment (suc i) y p ≡ some q → IsGood q
unfolding take_segment IsGood
take_segment-next i y p q (first, max) e =
    let later : (suc i == 0) ≡ false = ground arith in
    elim (Bool-cases (suc i % 2 == 0)) [
      | inl even ↦
          subst IsGood (some-injective (rw (later, even) at e)) (
            IsFirst-append p.padding_lens (y ∷ []) first,
            omega (arith, total-snoc p.padding_lens y),
          )
      | inr odd ↦ subst IsGood (some-injective (rw (later, odd) at e)) (first, max)
    ]

after-some :
    {X Y : Type 0} (o : Option X) (f : X → Option Y) (y : Y)
    → after o f ≡ some y
    → (x : X) × (o ≡ some x) × (f x ≡ some y)
after-some none f y e = absurd (some-ne-none e)
after-some (some x) f y e = (x, refl, e)

small_or_negative :
    (n : ℕ)
    → (ltb max_total_padding n && ltb n (2 ^ 63)) ≡ false
    → (n ≤ max_total_padding) ⊎ (2 ^ 63 ≤ n)
small_or_negative n h = ground arith

module _ (atoi : Bytes → Option ℕ) where
  parse_segments-next :
      (i : ℕ) (segments : List Bytes) (p q : Plan)
      → IsGood p
      → parse_segments atoi (suc i) segments p ≡ some q
      → IsGood q
  unfolding parse_segments
  parse_segments-next i [] p q good e = subst IsGood (some-injective e) good
  parse_segments-next i (segment ∷ segments) p q good e =
      let rest : Plan → Option Plan = λ x. parse_segments atoi (suc (suc i)) segments x in
      let (y, parsed, e') =
        after-some (parse_segment atoi segment) (λ x. after (take_segment (suc i) x p) rest) q e in
      let (p', taken, e'') = after-some (take_segment (suc i) y p) rest q e' in
      parse_segments-next (suc i) segments p' q (take_segment-next i y p p' good taken) e''

  parse_padding-IsGood :
      (segment : Bytes) (segments : List Bytes) (p : Plan)
      → parse_padding atoi (segment ∷ segments) ≡ some p
      → IsGood p × ((p.max_len ≤ max_total_padding) ⊎ (2 ^ 63 ≤ p.max_len))
  unfolding parse_padding parse_segments
  parse_padding-IsGood segment segments p e =
      let start : Plan = record { padding_lens = []; padding_gaps = []; max_len = 0 } in
      let (q, loop, small) =
        after-some (parse_segments atoi 0 (segment ∷ segments) start) within_total p e in
      let rest : Plan → Option Plan = λ x. parse_segments atoi 1 segments x in
      let (y, parsed, e') =
        after-some (parse_segment atoi segment) (λ x. after (take_segment 0 x start) rest) q loop in
      let (p', taken, e'') = after-some (take_segment 0 y start) rest q e' in
      let good = parse_segments-next 0 segments p' q (take_segment-first y p' taken) e'' in
      elim (Bool-cases (ltb max_total_padding q.max_len && ltb q.max_len (2 ^ 63))) [
        | inl large ↦ absurd (some-ne-none (rw large at small))
        | inr within ↦
            let same = some-injective (rw within at small) in
            subst (λ r. IsGood r × ((r.max_len ≤ max_total_padding) ⊎ (2 ^ 63 ≤ r.max_len))) same
              (good, small_or_negative q.max_len within)
      ]

rand_between-bounds :
    (low high : ℕ) (draws : List ℕ)
    → (l : ℕ) × (rest : List ℕ) × (rand_between low high draws ≡ ok l rest)
      × (min low high ≤ l)
      × (l ≤ max_of low high)
      × ((low ≡ high) ⊎ (l < max_of low high))
unfolding rand_between
rand_between-bounds low high draws = elim (Bool-cases (low == high)) [
  | inl same ↦ (low, draws, rw same refl, omega arith, ground arith, inl ((==_iff low high).0 same))
  | inr other ↦
      let n = get_or draws 0 0 in
      let gap : min low high < max_of low high = ground arith in
      (
        min low high + n % (max_of low high - min low high),
        drop 1 draws,
        rw other refl,
        omega arith,
        omega arith,
        inr (omega arith),
      )
]

draw_segment-bounds :
    (y : Segment) (draws : List ℕ)
    → (l : ℕ) × (rest : List ℕ) × (draw_segment y draws ≡ ok l rest)
      × (l ≤ max_of y.low y.high)
      × (100 ≤ y.chance → min y.low y.high ≤ l)
unfolding draw_segment
draw_segment-bounds y draws =
    let (chance, left, drawn, least, most, below) = rand_between-bounds 0 100 draws in
    let (l, rest, got, low, high, inside) = rand_between-bounds y.low y.high left in
    elim (Bool-cases (ltb y.chance chance)) [
      | inl skipped ↦
          (0, left, rw (drawn, skipped) refl, omega arith, λ h. absurd (ground (arith, below)))
      | inr taken ↦ (l, rest, rw (drawn, taken, got) refl, high, λ h. low)
    ]

draw_all-bounds :
    (ys : List Segment) (draws : List ℕ)
    → (ls rest : List ℕ) × (draw_all ys draws ≡ ok ls rest) × (sum ls ≤ total ys)
unfolding draw_all sum total
draw_all-bounds [] draws = ([], draws, refl, omega arith)
draw_all-bounds (y ∷ ys) draws =
    let (l, left, got, high, low) = draw_segment-bounds y draws in
    let (ls, rest, all, small) = draw_all-bounds ys left in
    (l ∷ ls, rest, rw (got, all) refl, omega arith)

draw_all-first :
    (ys : List Segment) (draws : List ℕ)
    → IsFirst ys
    → (ls rest : List ℕ) × (draw_all ys draws ≡ ok ls rest)
      × (min_padding_length ≤ sum ls)
      × (sum ls ≤ total ys)
unfolding draw_all sum total IsFirst
draw_all-first [] draws first = absurd first
draw_all-first (y ∷ ys) draws (chance, low, high) =
    let (l, left, got, most, least) = draw_segment-bounds y draws in
    let (ls, rest, all, small) = draw_all-bounds ys left in
    (l ∷ ls, rest, rw (got, all) refl, omega (arith, least chance), omega arith)

create_padding-IsFirst :
    (ys gaps : List Segment) (draws : List ℕ)
    → IsFirst ys
    → total ys ≤ max_total_padding
    → (n : ℕ) × (lens : List ℕ) × (gap_times rest : List ℕ) × (create_padding ys gaps draws
        ≡ ok (n, lens, gap_times) rest)
      × (n ≡ sum lens)
      × (min_padding_length ≤ n)
      × (n ≤ max_total_padding)
unfolding create_padding IsFirst
create_padding-IsFirst [] gaps draws first small = absurd first
create_padding-IsFirst (y ∷ ys) gaps draws first small =
    let (lens, left, got, low, high) = draw_all-first (y ∷ ys) draws first in
    let (gap_times, rest, all, bounded) = draw_all-bounds gaps left in
    let exact : sum_from 0 lens ≡ sum lens = sum_from-sum lens 0 (omega arith) ∙ omega arith in
    (sum lens, lens, gap_times, rest, rw (got, all, exact) refl, refl, low, omega arith)

-- Whatever the random source gives, the padding of a configuration that parsePadding accepts has a length from
-- 35 to 65553 bytes, which is the sum of its pieces, if the most that the plan can draw is less than 2 ^ 63.
pub create_padding-parse_padding :
    (atoi : Bytes → Option ℕ) (segment : Bytes) (segments : List Bytes) (p : Plan) (draws : List ℕ)
    → parse_padding atoi (segment ∷ segments) ≡ some p
    → total p.padding_lens < 2 ^ 63
    → (n : ℕ) × (lens : List ℕ) × (gap_times rest : List ℕ) × (create_padding p.padding_lens
          p.padding_gaps draws
        ≡ ok (n, lens, gap_times) rest)
      × (n ≡ sum lens)
      × (min_padding_length ≤ n)
      × (n ≤ max_total_padding)
unfolding IsGood
create_padding-parse_padding atoi segment segments p draws e exact =
    let ((first, max), small) = parse_padding-IsGood atoi segment segments p e in
    create_padding-IsFirst p.padding_lens p.padding_gaps draws first
      (elim small [ inl within ↦ omega arith | inr negative ↦ absurd (omega arith) ])
