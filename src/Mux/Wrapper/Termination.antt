-- ===== src/Mux/Wrapper/Termination.antt =====
-- The loop of ReadBuffer ends with a frame or an error (mux_wrapper.go: ReadBuffer).
use sing_vmess.Base.{
  ℕ, zero, suc, ◌+◌, ◌-◌, ◌≤◌, ◌<◌, bit_and, ◌≡◌, refl, sym, ap, subst, ◌⊎◌, inl, inr, [], ◌∷◌,
  arith, ltb, leb, ◌==◌, Bool-cases, length, drop, length-drop, Error, Outcome, ok, err, ok-ne-err,
  ok-injective, ok-state, Prog, and_then, ◌>>◌, lift, zoom, modify, Bytes, read_full, discard,
  read_u16,
}
use sing_vmess.Mux.Frame.{
  status_new, status_keep, status_end, status_keep_alive, option_data, option_error,
}
use sing_vmess.Mux.Wrapper.{
  MuxConnWrapper, conn_lens, read_header, check_status, check_option, read_frame, next_frame,
}

read_header-length :
    (room : ℕ) (conn rest : Bytes) (h : ℕ × (ℕ × ℕ))
    → read_header room conn ≡ ok h rest
    → length rest + 6 ≤ length conn
unfolding read_header read_full
read_header-length room conn rest h e = elim (Bool-cases (ltb room 6)) [
  | inl small ↦ absurd (ok-ne-err (sym (rw small at e)))
  | inr large ↦ elim (Bool-cases (leb 6 (length conn))) [
    | inl there ↦
        let left : drop 6 conn ≡ rest = ok-state (rw (large, there) at e) in
        ground (arith, length-drop 6 conn, ap (λ b. length b) left)
    | inr short_of ↦ absurd (ok-ne-err (sym (rw (large, short_of) at e)))
  ]
]

discard-length :
    (n : ℕ) (conn rest : Bytes) (x : Unit {0})
    → discard n conn ≡ ok x rest
    → length rest ≤ length conn
unfolding discard
discard-length n conn rest x e = elim (Bool-cases (leb n (length conn))) [
  | inl there ↦
      let left : drop n conn ≡ rest = ok-state (rw there at e) in
      omega (arith, length-drop n conn, ap (λ b. length b) left)
  | inr short_of ↦ absurd (ok-ne-err (sym (rw short_of at e)))
]

read_u16-length :
    (conn rest : Bytes) (n : ℕ) → read_u16 conn ≡ ok n rest → length rest ≤ length conn
read_u16-length [] rest n e = absurd (ok-ne-err (sym e))
read_u16-length (a ∷ []) rest n e = absurd (ok-ne-err (sym e))
read_u16-length (a ∷ b ∷ r) rest n e = omega (arith, ap (λ q. length q) (ok-state e))

module _ {A : Type 0} where
  zoom-length :
      {B : Type 0} (m : Prog Bytes B) (w w' : MuxConnWrapper A) (x : B) (k : ℕ)
      → ((rest : Bytes) → m w.conn ≡ ok x rest → length rest + k ≤ length w.conn)
      → zoom conn_lens m w ≡ ok x w'
      → length w'.conn + k ≤ length w.conn
  zoom-length {B = B} m w w' x k h e = by_case (m w.conn) refl e
    where
      by_case :
          (o : Outcome Bytes B)
          → m w.conn ≡ o
          → lift conn_lens w o ≡ ok x w'
          → length w'.conn + k ≤ length w.conn
      by_case (ok y rest) at e =
          let same : y ≡ x = ok-injective e in
          let left : record w { conn = rest } ≡ w' = ok-state e in
          let there = h rest (subst (λ z. m w.conn ≡ ok z rest) same at) in
          omega (arith, ap (λ v. length v.conn) left)
      by_case (err er rest) at e = absurd (ok-ne-err (sym e))

  check_option-length :
      (option : ℕ) (w w' : MuxConnWrapper A) (x : Unit {0})
      → check_option option w ≡ ok x w'
      → length w'.conn ≤ length w.conn
  unfolding check_option
  check_option-length option w w' x e =
      elim (Bool-cases (bit_and option option_error == option_error)) [
        | inl closed ↦ absurd (ok-ne-err (sym (rw closed at e)))
        | inr open_still ↦ elim (Bool-cases (bit_and option option_data == option_data)) [
          | inl data_here ↦
              counted (zoom conn_lens read_u16 w) refl (rw (open_still, data_here) at e)
          | inr none_here ↦
              omega (arith, ap (λ v. length v.conn) (ok-state (rw (open_still, none_here) at e)))
        ]
      ]
    where
      counted :
          (o : Outcome (MuxConnWrapper A) ℕ)
          → zoom conn_lens read_u16 w ≡ o
          → and_then o (λ n. modify (λ v. record v { remaining = n })) ≡ ok x w'
          → length w'.conn ≤ length w.conn
      counted (ok n v) at e =
          let h =
            zoom-length read_u16 w v n 0 (λ rest r. omega (arith, read_u16-length w.conn rest n r))
              at in
          omega (arith, h, ap (λ u. length u.conn) (ok-state e))
      counted (err er v) at e = absurd (ok-ne-err (sym e))

  check_status-length :
      (n status : ℕ) (w w' : MuxConnWrapper A) (x : Unit {0})
      → check_status n status w ≡ ok x w'
      → length w'.conn ≤ length w.conn
  unfolding check_status
  check_status-length n status w w' x e = elim (Bool-cases (status == status_new)) [
    | inl new ↦ absurd (ok-ne-err (sym (rw new at e)))
    | inr old ↦ elim (Bool-cases (status == status_keep)) [
      | inl keep ↦ elim (Bool-cases (ltb 4 n)) [
        | inl longer ↦
            let thrown : zoom conn_lens (discard (n - 4)) w ≡ ok x w' =
              rw (old, keep, longer) at e in
            omega (
              arith,
              zoom-length (discard (n - 4)) w w' x 0
                  (λ rest r. omega (arith, discard-length (n - 4) w.conn rest x r)) thrown,
            )
        | inr no_more ↦
            omega (arith, ap (λ v. length v.conn) (ok-state (rw (old, keep, no_more) at e)))
      ]
      | inr other ↦ elim (Bool-cases (status == status_end)) [
        | inl ended ↦ absurd (ok-ne-err (sym (rw (old, other, ended) at e)))
        | inr going ↦ elim (Bool-cases (status == status_keep_alive)) [
          | inl alive ↦
              omega (arith, ap (λ v. length v.conn) (ok-state (rw (old, other, going, alive) at e)))
          | inr unknown ↦ absurd (ok-ne-err (sym (rw (old, other, going, unknown) at e)))
        ]
      ]
    ]
  ]

  then_ok :
      {B C : Type 0} (o : Outcome (MuxConnWrapper A) B) (f : B → Prog (MuxConnWrapper A) C)
      (w' : MuxConnWrapper A) (z : C)
      → and_then o f ≡ ok z w'
      → (y : B) × (v : MuxConnWrapper A) × (o ≡ ok y v) × (f y v ≡ ok z w')
  then_ok (ok y v) f w' z e = (y, v, refl, e)
  then_ok (err er v) f w' z e = absurd (ok-ne-err (sym e))

  -- A turn of the loop that does not fail takes at least six bytes.
  read_frame-length :
      (room : ℕ) (w w' : MuxConnWrapper A) (x : Unit {0})
      → read_frame room w ≡ ok x w'
      → length w'.conn + 6 ≤ length w.conn
  unfolding read_frame
  read_frame-length room w w' x e =
      let (h, v, read, e') =
        then_ok (zoom conn_lens (read_header room) w)
          (λ h. check_status h.0 h.1.0 >> check_option h.1.1) w' x e in
      let (y, u, checked, e'') =
        then_ok (check_status h.0 h.1.0 v) (λ y. check_option h.1.1) w' x e' in
      omega (
        arith,
        zoom-length (read_header room) w v h 6 (λ rest r. read_header-length room w.conn rest h r)
            read,
        check_status-length h.0 h.1.0 v u y checked,
        check_option-length h.1.1 u w' x e'',
      )

  next_frame-remaining :
      (fuel room : ℕ) (w w' : MuxConnWrapper A) (x : Unit {0})
      → length w.conn < fuel
      → next_frame fuel room w ≡ ok x w'
      → 0 < w'.remaining
  unfolding next_frame
  next_frame-remaining zero room w w' x h e = absurd (omega arith)
  next_frame-remaining (suc fuel) room w w' x h e = elim (Bool-cases (w.remaining == 0)) [
    | inl none_left ↦
        let (y, v, turn, rest) =
          then_ok (read_frame room w) (λ y. next_frame fuel room) w' x (rw none_left at e) in
        next_frame-remaining fuel room v w' x (omega (arith, read_frame-length room w v y turn))
          rest
    | inr some_left ↦
        let same : w.remaining ≡ w'.remaining =
          ap (λ v. v.remaining) (ok-state (rw some_left at e)) in
        ground (arith, same)
  ]

  next_frame_fuel :
      (f g room : ℕ) (w : MuxConnWrapper A)
      → length w.conn < f
      → length w.conn < g
      → next_frame f room w ≡ next_frame g room w
  unfolding next_frame
  next_frame_fuel zero g room w hf hg = absurd (omega arith)
  next_frame_fuel (suc f) zero room w hf hg = absurd (omega arith)
  next_frame_fuel (suc f) (suc g) room w hf hg = elim (Bool-cases (w.remaining == 0)) [
    | inr some_left ↦ rw some_left refl
    | inl none_left ↦ rw none_left (turn (λ v. next_frame_fuel f g room v) (read_frame room w) refl)
  ]
    where
      turn :
          ((v : MuxConnWrapper A)
            → length v.conn < f
            → length v.conn < g
            → next_frame f room v ≡ next_frame g room v)
          → (o : Outcome (MuxConnWrapper A) (Unit {0})) → read_frame room w ≡ o
          → and_then o (λ y. next_frame f room) ≡ and_then o (λ y. next_frame g room)
      turn again (err e v) at = refl
      turn again (ok y v) at =
          let h = read_frame-length room w v y at in again v (omega arith) (omega arith)

  -- The loop of ReadBuffer comes to an end, whatever is still to be read: with one turn for each byte and one
  -- more it reports an error or stands inside a frame with bytes left of it, as the condition of the loop
  -- says, and turns beyond that change nothing.
  pub next_frame_ends :
      (room more : ℕ) (w : MuxConnWrapper A)
      → (next_frame (suc (length w.conn) + more) room w ≡ next_frame (suc (length w.conn)) room w)
        × (((e : Error) × (w' : MuxConnWrapper A) × (next_frame (suc (length w.conn)) room w
                ≡ err e w'))
            ⊎ ((w' : MuxConnWrapper A) × (next_frame (suc (length w.conn)) room w ≡ ok tt w')
                × (0 < w'.remaining)))
  next_frame_ends room more w = (
    next_frame_fuel (suc (length w.conn) + more) (suc (length w.conn)) room w (omega arith)
        (omega arith),
    ended (next_frame (suc (length w.conn)) room w) refl,
  )
    where
      ended :
          (o : Outcome (MuxConnWrapper A) (Unit {0}))
          → next_frame (suc (length w.conn)) room w ≡ o
          → ((e : Error) × (w' : MuxConnWrapper A) × (next_frame (suc (length w.conn)) room w
                ≡ err e w'))
            ⊎ ((w' : MuxConnWrapper A) × (next_frame (suc (length w.conn)) room w ≡ ok tt w')
                × (0 < w'.remaining))
      ended (err e w') at = inl (e, w', at)
      ended (ok y w') at =
          inr (w', at, next_frame-remaining (suc (length w.conn)) room w w' y (omega arith) at)
