-- ===== src/Vless/Request.antt =====
-- The requests and responses of VLESS (vless/protocol.go).
pub mod RoundTrip
pub mod Packets
use sing_vmess.Base.{
  ℕ, zero, suc, ◌+◌, ◌-◌, ◌*◌, ◌/◌, ◌%◌, ◌^◌, ◌≤◌, ◌<◌, min, bit_and, bit_or, bit_xor, ◌≡◌, refl,
  sym, ap, ap₂, ◌∙◌, subst, ◌≢◌, ◌↔◌, ◌⊎◌, inl, inr, Bool, true, false, not, ◌&&◌, ◌||◌, Option,
  none, some, List, [], ◌∷◌, ◌++◌, map, append-nil, append_assoc, arith, ltb, leb, ◌==◌,
  if◌then◌else◌, lt→ltb, le→leb, ==_iff, Bool-cases, length, get_or, take, drop, replicate,
  length-append, take-append-drop, length-take, length-drop, length-replicate, take_all, drop_all,
  take_ge, drop_ge, All, concat, Error, eof, unexpected_eof, short_buffer, upstream,
  bad_length_chunk, invalid_checksum, open_failed, unexpected_frame_new, unexpected_frame,
  remote_closed, invalid_frame_length, bad_address, bad_network, bad_session_status, pipe_closed,
  unknown_version, unknown_header, overflow, invalid_header, unknown_command, blocked,
  fqdn_unsupported, empty_segment, segment_too_large, invalid_segment, Outcome, ok, err, Prog, pure,
  fail, state_of, and_then, ◌>>=◌, ◌>>◌, Lens, lift, zoom, gets, modify, bit_xor_cancel, bit_xor-lt,
  bit_xor-zero, Bytes, IsByte, IsU16, put_u16, u16, put_u32, u16-put, short, read_full, discard,
  read_byte, read_u16, read_full-append, discard-append, read_full-short, length-read_full, Sink,
  write, open_sink, write_open,
}
use sing_vmess.Address.{Serializer}

abbrev pub command_udp : ℕ
command_udp = 2

abbrev pub command_mux : ℕ
command_mux = 3

pub record Request (A : Type 0) : Type 0 where
  pub uuid : Bytes
  pub command : ℕ
  pub destination : A
  pub flow : Bytes

pub record Addons : Type 0 where
  pub flow : Bytes
  pub seed : Bytes

-- binary.PutUvarint, of at most `fuel` bytes. Ten hold any uint64.
unfoldable pub put_uvarint : ℕ → ℕ → Bytes
put_uvarint zero n = []
put_uvarint (suc fuel) n =
    let rest = put_uvarint fuel (n / 128) in if ltb n 128 then n ∷ [] else (n % 128 + 128) ∷ rest

-- binary.ReadUvarint, with `fuel` bytes left; `short` is the error of a reader that is empty by then.
pub read_uvarint : ℕ → Error → Prog Bytes ℕ
read_uvarint zero short r = err overflow r
read_uvarint (suc fuel) short [] = err short []
read_uvarint (suc fuel) short (b ∷ r) =
    let rest = read_uvarint fuel unexpected_eof r in
    if ltb b 128
    then (if fuel == 0 && ltb 1 b then err overflow r else ok b r)
    else and_then rest λ n. pure (b % 128 + 128 * n)

-- A field of the addons, behind its header.
pub read_field : Prog Bytes Bytes
read_field = do
  n ← read_uvarint 10 eof
  left ← gets (λ r. length r)
  if leb n left then read_full n else fail unexpected_eof

-- The loop of readAddons. The fuel bounds its turns, each of which takes a byte.
pub addons_loop : ℕ → Addons → Prog Bytes Addons
addons_loop zero addons r = ok addons r
addons_loop (suc fuel) addons [] = ok addons []
addons_loop (suc fuel) addons (header ∷ r) =
    let more : Addons → Prog Bytes Addons = λ a. addons_loop fuel a in
    if header == 10
    then and_then (read_field r) (λ b. more (record addons { flow = b }))
    else if header == 18
    then and_then (read_field r) (λ b. more (record addons { seed = b }))
    else err unknown_header r

pub read_addons : Bytes → Outcome Bytes Addons
read_addons b = addons_loop (length b) (record { flow = []; seed = [] }) b

abbrev pub flow_of : Outcome Bytes Addons → Prog Bytes Bytes
flow_of (ok addons r) = pure addons.flow
flow_of (err e r) = fail e

-- The flow of the addons that `len` announces.
pub read_flow : ℕ → Prog Bytes Bytes
read_flow len = if len == 0 then pure [] else (do b ← read_full len; flow_of (read_addons b))

-- `version != Version`.
unfoldable pub check_version : Prog Bytes (Unit {0})
check_version = do version ← read_byte; if version == 0 then pure tt else fail unknown_version

-- ReadResponse.
unfoldable pub read_response : Prog Bytes (Unit {0})
read_response = do check_version; len ← read_byte; if len == 0 then pure tt else discard len

module _ {A : Type 0} (s : Serializer A) where
  pub read_destination : ℕ → Prog Bytes A
  read_destination command = if command == command_mux then pure s.empty else s.read_addr

  -- ReadRequest.
  pub read_request : Prog Bytes (Request A)
  unfolding check_version read_flow read_destination
  read_request = do
    check_version
    uuid ← read_full 16
    len ← read_byte
    flow ← read_flow len
    command ← read_byte
    destination ← read_destination command
    pure (record { uuid = uuid; command = command; destination = destination; flow = flow })

-- What follows an address that can be written.
abbrev pub with_address : Option Bytes → (Bytes → Bytes) → Option Bytes
with_address none f = none
with_address (some a) f = some (f a)

-- The payload of a request for packets, if it has one.
abbrev pub framed : Bytes → Bytes
framed [] = []
framed (b ∷ p) = put_u16 (length (b ∷ p)) ++ (b ∷ p)

-- `uvarint_len` is varbin.UvarintLen of the sing library.
module _ {A : Type 0} (s : Serializer A) (uvarint_len : ℕ → ℕ) where
  -- addonsLen.
  unfoldable pub addons_len : Request A → ℕ
  addons_len r = elim r.flow [ [] ↦ 0 | b ∷ bs ↦ 1 + uvarint_len (length r.flow) + length r.flow ]

  -- RequestLen.
  unfoldable pub request_len : Request A → ℕ
  unfolding addons_len
  request_len r =
      1
      + 16
      + 1
      + addons_len r
      + 1
      + (if r.command == command_mux then 0 else s.addr_len r.destination)

  pub encode_addons : Request A → Bytes
  encode_addons r =
      if ltb 0 (addons_len r) then 10 ∷ (put_uvarint 10 (length r.flow) ++ r.flow) else []

  unfoldable pub encode_destination : Request A → Option Bytes
  encode_destination r = if r.command == command_mux then some [] else s.write_addr r.destination

  -- The bytes of a request whose destination is written as `a`.
  pub request_bytes : Request A → Bytes → Bytes
  unfolding encode_addons
  request_bytes r a = 0 ∷ (r.uuid ++ ((addons_len r % 256) ∷ (encode_addons r ++ (r.command ∷ a))))

  -- EncodeRequest, as the bytes that it writes.
  unfoldable pub encode_request : Request A → Option Bytes
  unfolding encode_destination
  encode_request r = with_address (encode_destination r) (request_bytes r)

  -- What is written to a buffer of the size `size`, and then, if there is an address, to the connection.
  -- A buffer that is too small is a panic of common.Must.
  unfoldable pub send_buffer : ℕ → Option Bytes → Prog Sink (Unit {0})
  send_buffer size none = fail bad_address
  send_buffer size (some b) = if leb (length b) size then write b else fail short_buffer

  -- WriteRequest.
  unfoldable pub write_request : Request A → Bytes → Prog Sink (Unit {0})
  unfolding encode_request request_len
  write_request r payload =
      send_buffer (request_len r + length payload)
        (with_address (encode_request r) λ b. b ++ payload)

  -- WritePacketRequest. It never writes addons.
  unfoldable pub write_packet_request : Request A → Bytes → Prog Sink (Unit {0})
  write_packet_request r payload =
      send_buffer
        (1
          + 16
          + 1
          + 1
          + s.addr_len r.destination
          + (if ltb 0 (length payload) then 2 + length payload else 0))
        (with_address (s.write_addr r.destination)
          λ a. 0 ∷ (r.uuid ++ (0 ∷ command_udp ∷ (a ++ framed payload))))
