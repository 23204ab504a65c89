-- ===== src/Mux/Wrapper/Reading.antt =====
-- What MuxConnWrapper (mux_wrapper.go) reads and writes, against the frames of the server's session
-- (mux.go).
use sing_vmess.Base.{
  ℕ, zero, suc, ◌-◌, ◌≤◌, ◌<◌, min, ◌≡◌, refl, ap, ap₂, ◌∙◌, true, [], ◌∷◌, ◌++◌, arith, ◌==◌,
  length, take, drop, length-append, length-take, ok, and_then, ◌>>◌, lift, Bytes, IsU16, u16-put,
  read_full,
}
use sing_vmess.Mux.Frame.{frame, status_keep_alive}
use sing_vmess.Mux.Wrapper.{
  conn_lens, MuxConnWrapper, read_header, conn_read, read_payload, check_status, check_option,
  read_frame, next_frame, read_buffer,
}

-- Keep-alive frames, as a peer may send any number of them.
pub keep_alives : ℕ → Bytes
keep_alives zero = []
keep_alives (suc n) = 0 ∷ 4 ∷ 0 ∷ 0 ∷ status_keep_alive ∷ 0 ∷ keep_alives n

module _ {A : Type 0} where
  read_frame-keep_alive :
      (room : ℕ) (rest : Bytes) (w : MuxConnWrapper A)
      → 6 ≤ room
      → w.conn ≡ 0 ∷ 4 ∷ 0 ∷ 0 ∷ status_keep_alive ∷ 0 ∷ rest
      → read_frame room w ≡ ok tt (record w { conn = rest })
  unfolding read_frame read_header check_status check_option read_full
  read_frame-keep_alive room rest w hr hc = rw hc (ground arith)

  read_frame-frame :
      (room id : ℕ) (p rest : Bytes) (w : MuxConnWrapper A)
      → 6 ≤ room
      → IsU16 (length p)
      → w.conn ≡ frame id p ++ rest
      → read_frame room w ≡ ok tt (record w { conn = p ++ rest; remaining = length p })
  unfolding read_frame read_header check_status check_option read_full
  read_frame-frame room id p rest w hr hp hc = rw hc (ground (arith, u16-put (length p) hp))

  next_frame_turn :
      (fuel room : ℕ) (w : MuxConnWrapper A)
      → w.remaining ≡ 0
      → next_frame (suc fuel) room w ≡ (read_frame room >> next_frame fuel room) w
  unfolding next_frame
  next_frame_turn fuel room w h0 =
      let zero_left : (w.remaining == 0) ≡ true = ground arith in rw zero_left

  next_frame-frame :
      (k fuel room id b : ℕ) (p rest : Bytes) (w : MuxConnWrapper A)
      → 6 ≤ room
      → k < fuel
      → IsU16 (length (b ∷ p))
      → w.remaining ≡ 0
      → w.conn ≡ keep_alives k ++ (frame id (b ∷ p) ++ rest)
      → next_frame fuel room w
        ≡ ok tt (record w { conn = (b ∷ p) ++ rest; remaining = length (b ∷ p) })
  unfolding next_frame keep_alives
  next_frame-frame k zero room id b p rest w hr hk hp h0 hc = absurd (omega arith)
  next_frame-frame zero (suc zero) room id b p rest w hr hk hp h0 hc =
      rw (next_frame_turn _ room w h0, read_frame-frame room id (b ∷ p) rest w hr hp hc)
  next_frame-frame zero (suc (suc fuel)) room id b p rest w hr hk hp h0 hc =
      rw (next_frame_turn _ room w h0, read_frame-frame room id (b ∷ p) rest w hr hp hc)
        (ground arith)
  next_frame-frame (suc k) (suc fuel) room id b p rest w hr hk hp h0 hc =
      let more = keep_alives k ++ (frame id (b ∷ p) ++ rest) in
      rw (next_frame_turn _ room w h0, read_frame-keep_alive room more w hr hc)
        (next_frame-frame k fuel room id b p rest (record w { conn = more }) hr (omega arith) hp h0
          refl)

take_within : (n : ℕ) (p rest : Bytes) → n ≤ length p → take n (p ++ rest) ≡ take n p
take_within n [] rest h = ground arith
take_within zero (b ∷ p) rest h = refl
take_within (suc n) (b ∷ p) rest h = rw (take_within n p rest (omega arith))

drop_within : (n : ℕ) (p rest : Bytes) → n ≤ length p → drop n (p ++ rest) ≡ drop n p ++ rest
drop_within n [] rest h = ground arith
drop_within zero (b ∷ p) rest h = refl
drop_within (suc n) (b ∷ p) rest h = drop_within n p rest (omega arith)

conn_read-append :
    (ready room b : ℕ) (p rest : Bytes)
    → conn_read ready (min (length (b ∷ p)) room) ((b ∷ p) ++ rest)
      ≡ ok
          (take (min ready (min (length (b ∷ p)) room)) (b ∷ p))
          (drop (min ready (min (length (b ∷ p)) room)) (b ∷ p) ++ rest)
unfolding conn_read
conn_read-append ready room b p rest =
    let n = min ready (min (length (b ∷ p)) room) in
    let within : n ≤ length (b ∷ p) = omega arith in
    ap₂ ok (take_within n (b ∷ p) rest within) (drop_within n (b ∷ p) rest within)

length-keep_alives : (k : ℕ) → k ≤ length (keep_alives k)
unfolding keep_alives
length-keep_alives zero = omega arith
length-keep_alives (suc k) = omega (arith, length-keep_alives k)

module _ {A : Type 0} where
  read_payload-append :
      (ready room b : ℕ) (p rest : Bytes) (w : MuxConnWrapper A)
      → read_payload ready room (record w { conn = (b ∷ p) ++ rest; remaining = length (b ∷ p) })
        ≡ ok (take (min ready (min (length (b ∷ p)) room)) (b ∷ p)) (record w {
          conn = drop (min ready (min (length (b ∷ p)) room)) (b ∷ p) ++ rest;
          remaining = length (b ∷ p) - min ready (min (length (b ∷ p)) room);
        })
  unfolding read_payload
  read_payload-append ready room b p rest w =
      let n = min ready (min (length (b ∷ p)) room) in
      let left : length (take n (b ∷ p)) ≡ n = length-take n (b ∷ p) ∙ omega arith in
      ap
        (λ o.
          and_then
            (lift conn_lens (record w { conn = (b ∷ p) ++ rest; remaining = length (b ∷ p) }) o)
            λ q w'. ok q (record w' { remaining = w'.remaining - length q }))
        (conn_read-append ready room b p rest)
      ∙ ap
          (λ k.
            ok (take n (b ∷ p))
              (record w { conn = drop n (b ∷ p) ++ rest; remaining = length (b ∷ p) - k }))
          left

  -- At the start of a frame, ReadBuffer into six bytes of room or more skips the keep-alive frames, as
  -- many as there are, and gives the first bytes of the next frame of data: as many as the connection has
  -- ready, the room holds and the frame has. It is told what is left of the frame, and nothing of the
  -- connection is lost.
  pub read_buffer-frame :
      (k ready room id b : ℕ) (p rest : Bytes) (w : MuxConnWrapper A)
      → 6 ≤ room
      → IsU16 (length (b ∷ p))
      → w.remaining ≡ 0
      → w.conn ≡ keep_alives k ++ (frame id (b ∷ p) ++ rest)
      → (n : ℕ) × (n ≡ min ready (min (length (b ∷ p)) room))
        × (read_buffer ready room w
            ≡ ok
                (take n (b ∷ p))
                (record w { conn = drop n (b ∷ p) ++ rest; remaining = length (b ∷ p) - n }))
  unfolding read_buffer
  read_buffer-frame k ready room id b p rest w hr hp h0 hc =
      let n = min ready (min (length (b ∷ p)) room) in
      let fuel : k < suc (length w.conn) = rw hc (
        omega (
          arith,
          length-append (keep_alives k) (frame id (b ∷ p) ++ rest),
          length-keep_alives k,
        )) in
      (
        n,
        refl,
        rw (next_frame-frame k (suc (length w.conn)) room id b p rest w hr fuel hp h0 hc)
            (read_payload-append ready room b p rest w),
      )
