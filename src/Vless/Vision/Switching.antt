-- ===== src/Vless/Vision/Switching.antt =====
-- The state that VisionConn.Write keeps (vless/vision.go).
use sing_vmess.Base.{
  ℕ, ◌+◌, ◌≡◌, refl, ◌⊎◌, inl, inr, Bool, true, false, not, ◌&&◌, List, [], ◌∷◌, ltb, leb,
  if◌then◌else◌, length, take, drop, concat, Outcome, ok, err, Prog, pure, state_of, and_then, lift,
  Bytes, Sink, write,
}
use sing_vmess.Vless.Vision.{reshape_buffer, starts}
use sing_vmess.Vless.Vision.Filter.{tls13_cipher_suite, is_direct, Filter, filter_while}
use sing_vmess.Vless.Vision.Direct.{
  either, IsLearned, allowed, new-IsLearned, filter_while-IsLearned, filter_while_done,
}
use sing_vmess.Vless.Vision.Writing.{
  VisionConn, upper, lower, write_some, write_padded, pad, pad_buffers, write_filtered, write_conn,
  new_vision_conn, Event, wrote, received, step, run,
}

-- Write goes to the lower connection only behind the padding, and when the filter allows it.
Switches : Filter → Bool → Bool → Type 0
Switches f is_padding direct_write =
    (direct_write ≡ false) ⊎ ((f.enable_xtls ≡ true) × (is_padding ≡ false))

IsSound : VisionConn → Type 0
unfolding Switches
IsSound c = IsLearned c.filter × Switches c.filter c.is_padding c.direct_write

KeepsSound : {A : Type 0} → Outcome VisionConn A → Type 0
KeepsSound o = IsSound (state_of o)

lift-upper :
    (c : VisionConn) (o : Outcome Sink (Unit {0})) → IsSound c → KeepsSound (lift upper c o)
unfolding KeepsSound IsSound
lift-upper c (ok a s) h = h
lift-upper c (err e s) h = h

lift-lower :
    (c : VisionConn) (o : Outcome Sink (Unit {0})) → IsSound c → KeepsSound (lift lower c o)
unfolding KeepsSound IsSound
lift-lower c (ok a s) h = h
lift-lower c (err e s) h = h

returns : {A : Type 0} (a : A) (c : VisionConn) → IsSound c → KeepsSound (pure a c)
unfolding KeepsSound
returns a c h = h

and_then-KeepsSound :
    {A B : Type 0} (o : Outcome VisionConn A) (f : A → Prog VisionConn B)
    → KeepsSound o
    → ((a : A) (c : VisionConn) → IsSound c → KeepsSound (f a c))
    → KeepsSound (and_then o f)
unfolding KeepsSound
and_then-KeepsSound (ok a c) f h k = k a c h
and_then-KeepsSound (err e c) f h k = h

write_upper : (bs : List Bytes) (c : VisionConn) → IsSound c → KeepsSound (write_some upper bs c)
unfolding write_some
write_upper [] c h = returns tt c h
write_upper (b ∷ bs) c h = lift-upper c (write (concat (b ∷ bs)) c.conn) h

write_lower : (bs : List Bytes) (c : VisionConn) → IsSound c → KeepsSound (write_some lower bs c)
unfolding write_some
write_lower [] c h = returns tt c h
write_lower (b ∷ bs) c h = lift-lower c (write (concat (b ∷ bs)) c.net_conn) h

write_padded-KeepsSound :
    (padded : List Bytes × ℕ) (c : VisionConn) → IsSound c → KeepsSound (write_padded padded c)
unfolding write_padded
write_padded-KeepsSound padded c h =
    either KeepsSound c.direct_write
      (and_then-KeepsSound _ _
        (lift-upper c (write (concat (take (padded.1 + 1) padded.0)) c.conn) h)
        (λ a c' h'. write_lower (drop (padded.1 + 1) padded.0) c' h'))
      (write_upper padded.0 c h)

either_when :
    {A : Type 0} (P : A → Type 0) (b : Bool) {x y : A}
    → (b ≡ true → P x)
    → (b ≡ false → P y)
    → P (if b then x else y)
either_when P true p q = p refl
either_when P false p q = q refl

-- A VisionConn whose directWrite is set only with a TLS 1.3 that allows it, outside the padding and
-- with the filter done.
pub SwitchesRightly : VisionConn → Type 0
SwitchesRightly c =
    (c.direct_write ≡ false)
    ⊎ ((c.is_padding ≡ false)
        × (c.filter.packets_to_filter ≡ 0)
        × (c.filter.is_tls12_or_above ≡ true)
        × (c.filter.is_tls ≡ true)
        × (is_direct (tls13_cipher_suite c.filter.cipher) ≡ true))

rightly : (c : VisionConn) → IsSound c → SwitchesRightly c
unfolding IsSound Switches SwitchesRightly
rightly c (learned, inl off) = inl off
rightly c (learned, inr (on, unpadded)) =
    let (done, seen, tls, direct) = allowed c.filter learned on in
    inr (unpadded, done, seen, tls, direct)

new_vision_conn-IsSound :
    (user_uuid : Bytes) (conn net_conn : Sink) → IsSound (new_vision_conn user_uuid conn net_conn)
unfolding IsSound Switches new_vision_conn
new_vision_conn-IsSound user_uuid conn net_conn = (new-IsLearned _ refl refl refl, inl refl)

module _ (entropy : ℕ → ℕ → ℕ) (filler : ℕ → Bytes) where
  pad_buffers-IsSound :
      (i : ℕ) (bs : List Bytes) (c : VisionConn)
      → IsLearned c.filter
      → c.direct_write ≡ false
      → IsSound (pad_buffers entropy filler i bs c).1
  unfolding pad_buffers pad IsSound Switches
  pad_buffers-IsSound i [] c h off = (h, inl off)
  pad_buffers-IsSound i (b ∷ bs) c h off =
      either (λ (r : (List Bytes × ℕ) × VisionConn). IsSound r.1)
        (c.filter.is_tls && (ltb 6 (length b) && starts b))
        (either_when (λ (r : (List Bytes × ℕ) × VisionConn). IsSound r.1) c.filter.enable_xtls
          (λ on. (h, inr (on, refl))) (λ not_on. (h, inl off)))
        (either (λ (r : (List Bytes × ℕ) × VisionConn). IsSound r.1)
          (not c.filter.is_tls12_or_above && leb c.filter.packets_to_filter 1) (h, inl off)
          (pad_buffers-IsSound (i + 1) bs _ h off))

  write_filtered-KeepsSound :
      (p : Bytes) (c : VisionConn) → IsSound c → KeepsSound (write_filtered entropy filler p c)
  unfolding write_filtered IsSound Switches
  write_filtered-KeepsSound p c h =
      either_when KeepsSound c.is_padding
        (λ padding_on.
          let off : c.direct_write ≡ false = elim h.1 [ inl o ↦ o | inr switched ↦ absurd cc ] in
          and_then-KeepsSound _ _
            (write_padded-KeepsSound _ _
              (pad_buffers-IsSound 0 (reshape_buffer (length p) p) c h.0 off))
            (λ a c' h'. returns (length p) c' h'))
        (λ padding_off.
          either KeepsSound c.direct_write
            (and_then-KeepsSound _ _ (lift-lower c (write p c.net_conn) h)
              (λ a c' h'. returns (length p) c' h'))
            (and_then-KeepsSound _ _ (lift-upper c (write p c.conn) h)
              (λ a c' h'. returns (length p) c' h')))

  filtered-IsSound :
      (bs : List Bytes) (c : VisionConn)
      → IsSound c
      → IsSound (record c { filter = filter_while bs c.filter })
  unfolding IsSound Switches
  filtered-IsSound bs c h = (
    filter_while-IsLearned bs c.filter h.0,
    elim h.1 [
      | inl off ↦ inl off
      | inr (on, padded) ↦ inr (rw (filter_while_done bs c.filter h.0 on) on, padded)
    ],
  )

  step-IsSound : (e : Event) (c : VisionConn) → IsSound c → IsSound (step entropy filler e c)
  unfolding step write_conn KeepsSound
  step-IsSound (wrote p) c h =
      write_filtered-KeepsSound p (record c { filter = filter_while (p ∷ []) c.filter })
        (filtered-IsSound (p ∷ []) c h)
  step-IsSound (received bs) c h = filtered-IsSound bs c h

  run-IsSound : (es : List Event) (c : VisionConn) → IsSound c → IsSound (run entropy filler es c)
  unfolding run
  run-IsSound [] c h = h
  run-IsSound (e ∷ es) c h = run-IsSound es _ (step-IsSound e c h)

  -- Whatever a new VisionConn is given to write, and whatever it has read, one after the other and failed
  -- Writes included: its directWrite is set only when filterTLS is done, has seen a server hello, and has
  -- noted a cipher suite of TLS 1.3 other than AES 128 CCM 8, and when the padding has ended.
  pub run-SwitchesRightly :
      (es : List Event) (user_uuid : Bytes) (conn net_conn : Sink)
      → SwitchesRightly (run entropy filler es (new_vision_conn user_uuid conn net_conn))
  run-SwitchesRightly es user_uuid conn net_conn =
      rightly _ (run-IsSound es _ (new_vision_conn-IsSound user_uuid conn net_conn))
