-- ===== src/Vless/Request/RoundTrip.antt =====
-- What is written as a request (vless/protocol.go) is read back.
use sing_vmess.Base.{
  ℕ, zero, suc, ◌+◌, ◌/◌, ◌%◌, ◌<◌, ◌≡◌, refl, ap, subst, inl, inr, true, false, Option, none, some,
  [], ◌∷◌, ◌++◌, append-nil, append_assoc, arith, ltb, leb, ◌==◌, if◌then◌else◌, lt→ltb, le→leb,
  Bool-cases, length, length-append, Error, eof, ok, Bytes, read_full-append, open_sink, write_open,
}
use sing_vmess.Address.{Serializer, IsSerializer}
use sing_vmess.Vless.Request.{
  Request, command_mux, put_uvarint, read_uvarint, read_field, addons_loop, read_addons, flow_of,
  read_flow, check_version, read_destination, read_request, with_address, addons_len, request_len,
  encode_addons, encode_destination, encode_request, request_bytes, send_buffer, write_request,
}

read_uvarint-put :
    (n fuel : ℕ) (e : Error) (rest : Bytes)
    → n < 16384
    → 2 < fuel
    → read_uvarint fuel e (put_uvarint fuel n ++ rest) ≡ ok n rest
unfolding read_uvarint put_uvarint
read_uvarint-put n zero e rest h hf = absurd (omega arith)
read_uvarint-put n (suc zero) e rest h hf = absurd (omega arith)
read_uvarint-put n (suc (suc zero)) e rest h hf = absurd (omega arith)
read_uvarint-put n (suc (suc (suc fuel))) e rest h hf = elim (Bool-cases (ltb n 128)) [
  | inl e ↦ ground arith
  | inr e ↦ let next : ltb (n / 128) 128 ≡ true = lt→ltb _ _ (omega arith) in ground arith
]

read_field-append :
    (p rest : Bytes)
    → length p < 16384
    → read_field (put_uvarint 10 (length p) ++ (p ++ rest)) ≡ ok p rest
unfolding read_field
read_field-append p rest h = rw (
  read_uvarint-put (length p) 10 eof (p ++ rest) h (omega arith),
  le→leb (length p) (length (p ++ rest)) (omega (arith, length-append p rest)),
  read_full-append (length p) p rest refl,
)

addons_loop-encode :
    (fuel : ℕ) (p : Bytes)
    → 0 < fuel
    → length p < 16384
    → addons_loop
        (suc fuel)
        (record { flow = []; seed = [] })
        (10 ∷ (put_uvarint 10 (length p) ++ p))
      ≡ ok (record { flow = p; seed = [] }) []
unfolding addons_loop
addons_loop-encode zero p more h = absurd (omega arith)
addons_loop-encode (suc fuel) p more h =
    let field : read_field (put_uvarint 10 (length p) ++ p) ≡ ok p [] =
      subst (λ q. read_field (put_uvarint 10 (length p) ++ q) ≡ ok p []) (append-nil p)
        (read_field-append p [] h) in
    rw field

put_uvarint_some : (n : ℕ) → 0 < length (put_uvarint 10 n)
unfolding put_uvarint
put_uvarint_some n = ground arith

read_addons-encode :
    (p : Bytes)
    → length p < 16384
    → read_addons (10 ∷ (put_uvarint 10 (length p) ++ p)) ≡ ok (record { flow = p; seed = [] }) []
unfolding read_addons
read_addons-encode p h =
    addons_loop-encode (length (put_uvarint 10 (length p) ++ p)) p
      (omega (arith, length-append (put_uvarint 10 (length p)) p, put_uvarint_some (length p))) h

read_flow-append :
    (len : ℕ) (p rest : Bytes)
    → length p < 16384
    → length (10 ∷ (put_uvarint 10 (length p) ++ p)) ≡ len
    → read_flow len ((10 ∷ (put_uvarint 10 (length p) ++ p)) ++ rest) ≡ ok p rest
unfolding read_flow
read_flow-append len p rest h size =
    let some_len : (len == 0) ≡ false = ground arith in
    rw (some_len, read_full-append len (10 ∷ (put_uvarint 10 (length p) ++ p)) rest size)
      (ap (λ o. flow_of o rest) (read_addons-encode p h))

pub with_address-some :
    (o : Option Bytes) (f : Bytes → Bytes) (b : Bytes)
    → with_address o f ≡ some b
    → (a : Bytes) × (o ≡ some a) × (f a ≡ b)
with_address-some none f b e = ground arith
with_address-some (some a) f b e = (a, refl, ground arith)

module _ {A : Type 0} (s : Serializer A) (laws : IsSerializer s) (uvarint_len : ℕ → ℕ)
    (uvarint : (n : ℕ) → uvarint_len n ≡ length (put_uvarint 10 n)) where
  length-encode_addons :
      (r : Request A) (f : Bytes)
      → r.flow ≡ f
      → length (encode_addons s uvarint_len r) ≡ addons_len s uvarint_len r
  unfolding encode_addons addons_len
  length-encode_addons r [] e = rw e
  length-encode_addons r (b ∷ f) e = rw e (
      ground
        (arith, uvarint (length (b ∷ f)), length-append (put_uvarint 10 (length (b ∷ f))) (b ∷ f)))

  read_flow-encode :
      (r : Request A) (f rest : Bytes)
      → r.flow ≡ f
      → addons_len s uvarint_len r < 256
      → read_flow (addons_len s uvarint_len r % 256) (encode_addons s uvarint_len r ++ rest)
        ≡ ok r.flow rest
  unfolding encode_addons addons_len
  read_flow-encode r [] rest e h = rw e (unfold read_flow in refl)
  read_flow-encode r (b ∷ f) rest e h =
      let n = 1 + uvarint_len (length (b ∷ f)) + length (b ∷ f) in
      let n_small : n < 256 = rw e at h in
      let length_f : length (b ∷ f) < 16384 = omega arith in
      let size : length (10 ∷ (put_uvarint 10 (length (b ∷ f)) ++ (b ∷ f))) ≡ n % 256 = omega (
        arith,
        uvarint (length (b ∷ f)),
        length-append (put_uvarint 10 (length (b ∷ f))) (b ∷ f),
      ) in
      let some_addons : ltb 0 n ≡ true = lt→ltb 0 n (omega arith) in
      rw (e, some_addons) (read_flow-append (n % 256) (b ∷ f) rest length_f size)

  pub read_request-fields :
      (r : Request A) (a rest : Bytes) (d : A)
      → length r.uuid ≡ 16
      → addons_len s uvarint_len r < 256
      → read_destination s r.command (a ++ rest) ≡ ok d rest
      → read_request s (request_bytes s uvarint_len r a ++ rest)
        ≡ ok (record r { destination = d }) rest
  unfolding read_request check_version request_bytes
  read_request-fields r a rest d hu ha hd =
      let len = addons_len s uvarint_len r % 256 in
      let addons = encode_addons s uvarint_len r in
      rw (
        append_assoc r.uuid (len ∷ (addons ++ (r.command ∷ a))) rest,
        read_full-append 16 r.uuid ((len ∷ (addons ++ (r.command ∷ a))) ++ rest) hu,
        append_assoc addons (r.command ∷ a) rest,
        read_flow-encode r r.flow (r.command ∷ (a ++ rest)) refl ha,
        hd,
      )

  read_destination-encode :
      (r : Request A) (a rest : Bytes)
      → encode_destination s uvarint_len r ≡ some a
      → read_destination s r.command (a ++ rest)
        ≡ ok (if r.command == command_mux then s.empty else r.destination) rest
  unfolding read_destination encode_destination
  read_destination-encode r a rest e = elim (Bool-cases (r.command == command_mux)) [
    | inl m ↦ ground arith
    | inr m ↦ rw m (laws.read-write r.destination a rest (rw m at e))
  ]

  length-encode_destination :
      (r : Request A) (a : Bytes)
      → encode_destination s uvarint_len r ≡ some a
      → length a ≡ (if r.command == command_mux then 0 else s.addr_len r.destination)
  unfolding encode_destination
  length-encode_destination r a e = elim (Bool-cases (r.command == command_mux)) [
    | inl m ↦ ground arith
    | inr m ↦ rw m (laws.length-write r.destination a (rw m at e))
  ]

  length-request_bytes :
      (r : Request A) (a : Bytes)
      → length r.uuid ≡ 16
      → encode_destination s uvarint_len r ≡ some a
      → length (request_bytes s uvarint_len r a) ≡ request_len s uvarint_len r
  unfolding request_bytes request_len
  length-request_bytes r a hu e =
      let len = addons_len s uvarint_len r in
      let addons = encode_addons s uvarint_len r in
      let tail_len = length-encode_destination r a e in
      omega (
        arith,
        length-append r.uuid ((len % 256) ∷ (addons ++ (r.command ∷ a))),
        length-append addons (r.command ∷ a),
        length-encode_addons r r.flow refl,
      )

  -- A request that encodes, whose id has its sixteen bytes and whose addons are shorter than 256 bytes, is
  -- read back as it was, whatever follows it, but that a request of the multiplexer comes without its
  -- destination; and its encoding has the length that RequestLen says.
  pub read_request-encode :
      (r : Request A) (b rest : Bytes)
      → length r.uuid ≡ 16
      → addons_len s uvarint_len r < 256
      → encode_request s uvarint_len r ≡ some b
      → (read_request s (b ++ rest)
          ≡ ok
              (record r {
                destination = if r.command == command_mux then s.empty else r.destination;
              })
              rest)
        × (length b ≡ request_len s uvarint_len r)
  unfolding encode_request
  read_request-encode r b rest hu ha e =
      let (a, ea, eb) =
        with_address-some (encode_destination s uvarint_len r) (request_bytes s uvarint_len r) b
          e in
      (
        rw (← eb) (read_request-fields r a rest _ hu ha (read_destination-encode r a rest ea)),
        rw (← eb) (length-request_bytes r a hu ea),
      )

  -- WriteRequest to a connection that takes it never lacks room in its buffer: where the destination can be
  -- written, the connection gets one write, of the encoded request and the payload, and the reader of the
  -- request is left with the payload.
  pub write_request-read_request :
      (r : Request A) (b payload sent : Bytes)
      → length r.uuid ≡ 16
      → addons_len s uvarint_len r < 256
      → encode_request s uvarint_len r ≡ some b
      → (write_request s uvarint_len r payload (open_sink sent)
          ≡ ok tt (open_sink (sent ++ (b ++ payload))))
        × (read_request s (b ++ payload)
            ≡ ok
                (record r {
                  destination = if r.command == command_mux then s.empty else r.destination;
                })
                payload)
  unfolding write_request send_buffer
  write_request-read_request r b payload sent hu ha e =
      let (back, len) = read_request-encode r b payload hu ha e in
      let fits : leb (length (b ++ payload)) (request_len s uvarint_len r + length payload) ≡ true =
        le→leb _ _ (omega (arith, length-append b payload)) in
      (rw (e, fits, write_open sent (b ++ payload)), back)
