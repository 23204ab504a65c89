-- ===== src/Vmess/Service/Slices.antt =====
-- Slices of a buffer that holds the first bytes of a connection (service.go: NewConnection).
use sing_vmess.Base.{
  ℕ, zero, suc, ◌+◌, ◌-◌, ◌≤◌, ◌≡◌, refl, sym, ap, ◌∙◌, subst, inl, inr, true, false, [], ◌∷◌, ◌++◌,
  append-nil, append_assoc, arith, ltb, leb, le→leb, Bool-cases, length, take, drop, length-append,
  take-append-drop, length-take, length-drop, take_all, drop_all, ok, Bytes, read_full,
}
use sing_vmess.Vmess.Service.{fetch_rest}

take-prefix : (n : ℕ) (xs ys : Bytes) → n ≤ length xs → take n (xs ++ ys) ≡ take n xs
take-prefix zero xs ys h = refl
take-prefix (suc n) [] ys h = absurd (omega arith)
take-prefix (suc n) (x ∷ xs) ys h = ap (λ b. x ∷ b) (take-prefix n xs ys (omega arith))

drop-prefix : (n : ℕ) (xs ys : Bytes) → n ≤ length xs → drop n (xs ++ ys) ≡ drop n xs ++ ys
drop-prefix zero xs ys h = refl
drop-prefix (suc n) [] ys h = absurd (omega arith)
drop-prefix (suc n) (x ∷ xs) ys h = drop-prefix n xs ys (omega arith)

-- The slice of the buffer that lies at `mid` of the stream.
pub slice_lem :
    (i n : ℕ) (first rest pre mid post : Bytes)
    → first ++ rest ≡ pre ++ (mid ++ post)
    → length pre ≡ i
    → length mid ≡ n
    → i + n ≤ length first
    → take n (drop i first) ≡ mid
slice_lem i n first rest pre mid post e hi hn h =
    sym (take-prefix n (drop i first) rest (omega (arith, length-drop i first)))
    ∙ ap (take n) (sym (drop-prefix i first rest (omega arith)))
    ∙ ap (λ b. take n (drop i b)) e
    ∙ ap (take n)
        (subst (λ k. drop k (pre ++ (mid ++ post)) ≡ mid ++ post) hi (drop_all pre (mid ++ post)))
    ∙ subst (λ k. take k (mid ++ post) ≡ mid) hn (take_all mid post)

-- What is left of the buffer, and the connection, behind the first part of the stream.
pub remainder_lem :
    (n : ℕ) (first rest pre post : Bytes)
    → first ++ rest ≡ pre ++ post
    → length pre ≡ n
    → n ≤ length first
    → drop n first ++ rest ≡ post
remainder_lem n first rest pre post e hn h =
    sym (drop-prefix n first rest h)
    ∙ ap (drop n) e
    ∙ subst (λ k. drop k (pre ++ post) ≡ post) hn (drop_all pre post)

-- With the room for it, the buffer gets the bytes that it needs, and no others.
pub fetch_rest_lem :
    (buffer_size total : ℕ) (first rest : Bytes)
    → total ≤ buffer_size
    → total ≤ length (first ++ rest)
    → (body left : Bytes) × (fetch_rest buffer_size total first rest ≡ ok body left)
      × ((first ++ body) ++ left ≡ first ++ rest)
      × (total ≤ length (first ++ body))
unfolding fetch_rest
fetch_rest_lem buffer_size total first rest room there =
    let need = total - length first in
    elim (Bool-cases (ltb 0 need)) [
      | inl more ↦
          let fits : ltb (buffer_size - length first) need ≡ false = ground arith in
          let enough : leb need (length rest) ≡ true =
            le→leb _ _ (omega (arith, length-append first rest)) in
          (
            take need rest,
            drop need rest,
            rw (more, fits) (unfold read_full in rw enough refl),
            append_assoc first (take need rest) (drop need rest)
                ∙ ap (λ b. first ++ b) (take-append-drop need rest),
            omega (
              arith,
              length-append first rest,
              length-append first (take need rest),
              length-take need rest,
            ),
          )
      | inr none_needed ↦ (
        [],
        rest,
        rw none_needed refl,
        ap (λ b. b ++ rest) (append-nil first),
        ground (arith, length-append first []),
      )
    ]
