-- ===== src/Encryption/Xor/Bytewise.antt =====
-- The loops of XorConn against a machine that takes one byte at a time, so that it does not matter how
-- the stream is cut into calls.
use sing_vmess.Base.{
  ℕ, zero, suc, ◌+◌, ◌-◌, ◌≤◌, ◌<◌, bit_xor, ◌≡◌, refl, sym, ap, ◌∙◌, inl, inr, true, false, [],
  ◌∷◌, ◌++◌, append-nil, append_assoc, arith, ltb, leb, ◌==◌, if◌then◌else◌, Bool-cases, length,
  take, drop, length-append, take-append-drop, length-take, length-drop, Bytes,
}
use native.Mathlib.Nat.{add_assoc}
use sing_vmess.Encryption.Header.{header_word}
use sing_vmess.Encryption.Xor.{
  Direction, outgoing, incoming, clear, part_header, full_header, Masker, xor_key_stream, loop,
}

-- Between records, with the first bytes of a header.
abbrev pub at_header : ℕ → Bytes → Masker
at_header used header = record { used = used; skip = 0; header = header }

-- One more header byte, in clear: at the fifth the header gives the bytes to skip.
abbrev pub take_header : Masker → ℕ → Masker
take_header m b =
    if length m.header == 4
    then record { used = m.used + 1; skip = header_word (m.header ++ b ∷ []); header = [] }
    else record { used = m.used + 1; skip = 0; header = m.header ++ b ∷ [] }

module _ (ks : ℕ → ℕ) where
  -- A byte of payload passes; a byte of a header is masked.
  abbrev pub step : Direction → ℕ → Masker → ℕ × Masker
  step d b m =
      if ltb 0 m.skip
      then (b, record m { skip = m.skip - 1 })
      else (bit_xor b (ks m.used), take_header m (clear d b (bit_xor b (ks m.used))))

  unfoldable pub run : Direction → Bytes → Masker → Bytes × Masker
  run d [] m = ([], m)
  run d (b ∷ bs) m = let (c, m') = step d b m in let (cs, m'') = run d bs m' in (c ∷ cs, m'')

  pub run-append :
      (d : Direction) (xs ys : Bytes) (m : Masker)
      → run d (xs ++ ys) m
        ≡ ((run d xs m).0 ++ (run d ys (run d xs m).1).0, (run d ys (run d xs m).1).1)
  unfolding run
  run-append d [] ys m = refl
  run-append d (x ∷ xs) ys m = rw (run-append d xs ys (step d x m).1)

  -- Payload bytes within `skip` pass.
  run-skip :
      (d : Direction) (xs header : Bytes) (used skip : ℕ)
      → length xs ≤ skip
      → run d xs (record { used = used; skip = skip; header = header })
        ≡ (xs, record { used = used; skip = skip - length xs; header = header })
  unfolding run
  run-skip d [] header used skip h = ground arith
  run-skip d (x ∷ xs) header used skip h = ground (arith, run-skip d xs header used (skip - 1))

  -- One byte of a header: it is masked and kept, and the fifth gives the bytes to skip.
  run-header :
      (d : Direction) (b : ℕ) (bs header : Bytes) (used : ℕ)
      → let c = bit_xor b (ks used) in
        let m = take_header (at_header used header) (clear d b c) in
        run d (b ∷ bs) (at_header used header) ≡ (c ∷ (run d bs m).0, (run d bs m).1)
  unfolding run
  run-header d b bs header used = refl

  clear-cons :
      (d : Direction) (b c : ℕ) (bs cs : Bytes)
      → clear d b c ∷ clear d bs cs ≡ clear d (b ∷ bs) (c ∷ cs)
  clear-cons outgoing b c bs cs = refl
  clear-cons incoming b c bs cs = refl

  -- Bytes that do not complete a header are masked and kept.
  run-part :
      (d : Direction) (q header : Bytes) (used : ℕ)
      → length header + length q < 5
      → let m = at_header used header in
        run d q m ≡ (xor_key_stream ks used q, part_header d m q (xor_key_stream ks used q))
  unfolding xor_key_stream
  run-part outgoing [] header used h = unfold run in rw append-nil (ground arith)
  run-part incoming [] header used h = unfold run in rw append-nil (ground arith)
  run-part d (b ∷ q) header used h =
      let c = bit_xor b (ks used) in
      let open_header : (length header == 4) ≡ false = ground arith in
      let grown = header ++ clear d b c ∷ [] in
      let kept : length grown ≡ length header + 1 =
        omega (arith, length-append header (clear d b c ∷ [])) in
      run-header d b q header used
      ∙ rw (open_header) (
          rw (run-part d q grown (used + 1) (omega arith))
            (rw (append_assoc, clear-cons, add_assoc) (ground arith)))

  last_byte :
      (d : Direction) (b c : ℕ) (header : Bytes) (used : ℕ)
      → let m = full_header d (at_header used header) (b ∷ []) (c ∷ []) in
        let n = record m { skip = header_word (header ++ clear d b c ∷ []) } in
        ◌≡◌ {A = Bytes × Masker} (c ∷ (run d [] n).0, (run d [] n).1) (c ∷ [], m)
  unfolding run
  last_byte outgoing b c header used = refl
  last_byte incoming b c header used = refl

  -- Bytes that complete a header are masked, and the header tells how many to skip.
  run-full :
      (d : Direction) (q header : Bytes) (used : ℕ)
      → length header < 5
      → length header + length q ≡ 5
      → let m = at_header used header in
        run d q m ≡ (xor_key_stream ks used q, full_header d m q (xor_key_stream ks used q))
  unfolding xor_key_stream
  run-full d [] header used low h = absurd (omega arith)
  run-full d (b ∷ []) header used low h =
      let last : (length header == 4) ≡ true = ground arith in
      run-header d b [] header used ∙ rw last (last_byte d b (bit_xor b (ks used)) header used)
  run-full d (b ∷ b' ∷ q) header used low h =
      let c = bit_xor b (ks used) in
      let open_header : (length header == 4) ≡ false = ground arith in
      let grown = header ++ clear d b c ∷ [] in
      let kept : length grown ≡ length header + 1 =
        omega (arith, length-append header (clear d b c ∷ [])) in
      run-header d b (b' ∷ q) header used
      ∙ rw (open_header) (
          rw (run-full d (b' ∷ q) grown (used + 1) (omega arith) (omega arith))
            (rw (append_assoc, clear-cons, add_assoc) (ground arith)))

  -- The machine over what is behind the bytes to skip.
  run-behind :
      (d : Direction) (p header : Bytes) (used skip : ℕ)
      → skip ≤ length p
      → run d p (record { used = used; skip = skip; header = header }) ≡ (
        take skip p ++ (run d (drop skip p) (at_header used header)).0,
        (run d (drop skip p) (at_header used header)).1,
      )
  run-behind d p header used skip h =
      let front : length (take skip p) ≡ skip = omega (arith, length-take skip p) in
      let none_left : skip - length (take skip p) ≡ 0 = omega (arith, length-take skip p) in
      ap (λ (b : Bytes). run d b (record { used = used; skip = skip; header = header }))
        (sym (take-append-drop skip p))
      ∙ run-append d (take skip p) (drop skip p)
          (record { used = used; skip = skip; header = header })
      ∙ rw (run-skip d (take skip p) header used skip (omega arith)) (rw none_left)

  -- The machine over the rest of a header and what is behind it.
  run-record :
      (d : Direction) (q header : Bytes) (used : ℕ)
      → length header < 5
      → 5 - length header ≤ length q
      → let need = 5 - length header in
        let head = take need q in
        let m = full_header d (at_header used header) head (xor_key_stream ks used head) in
        run d q (at_header used header)
        ≡ (xor_key_stream ks used head ++ (run d (drop need q) m).0, (run d (drop need q) m).1)
  run-record d q header used low h =
      let need = 5 - length header in
      ap (λ (b : Bytes). run d b (at_header used header)) (sym (take-append-drop need q))
      ∙ run-append d (take need q) (drop need q) (at_header used header)
      ∙ rw (run-full d (take need q) header used low (omega (arith, length-take need q)))

  -- The code's loop does to each byte what the machine does, however many headers the bytes hold.
  pub loop-run :
      (d : Direction) (fuel : ℕ) (p header : Bytes) (used skip : ℕ)
      → length p < fuel
      → length header < 5
      → loop ks d fuel p (record { used = used; skip = skip; header = header })
        ≡ run d p (record { used = used; skip = skip; header = header })
  unfolding loop
  loop-run d zero p header used skip h low = absurd (omega arith)
  loop-run d (suc fuel) p header used skip h low = elim (Bool-cases (leb (length p) skip)) [
    | inl within ↦ rw within (sym (run-skip d p header used skip (ground arith)))
    | inr beyond ↦
        let q = drop skip p in
        let need = 5 - length header in
        let head = take need q in
        let m = full_header d (at_header used header) head (xor_key_stream ks used head) in
        let past : skip < length p = ground arith in
        rw beyond (elim (Bool-cases (ltb (length q) need)) [
          | inl part ↦ rw part (
              sym (
                run-behind d p header used skip (omega arith)
                ∙ rw (run-part d q header used (ground arith))))
          | inr full ↦ rw full (
              sym (
                run-behind d p header used skip (omega arith)
                ∙ rw (run-record d q header used low (ground arith)) (
                    rw (
                      loop-run d fuel (drop need q) [] m.used m.skip
                        (omega (arith, length-drop need q, length-drop skip p)) (omega arith)))))
        ])
  ]
