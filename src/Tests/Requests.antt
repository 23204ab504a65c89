-- ===== src/Tests/Requests.antt =====
-- Inputs for VLESS (vless/protocol.go, vless/constant.go, vless/vision.go) and for packets over a stream
-- (packetaddr/stream_conn.go).
use sing_vmess.Base.{
  inl, ap, ◌∙◌, append-nil, take-append-drop, drop, ◌≤◌, List, ℕ, ◌<◌, ◌≡◌, refl, true, none, some,
  [], ◌∷◌, ◌++◌, arith, length, take, replicate, length-replicate, ok, state_of, Bytes, put_u16,
  Sink, write, open_sink, write_with,
}
use sing_vmess.Address.{toy_serializer, toy_serializer-IsSerializer}
use sing_vmess.PacketAddr.{read_packet, read_from, write_packet}
use sing_vmess.PacketAddr.RoundTrip.{read_packet-write_packet}
use sing_vmess.Vless.Request.{
  Request, put_uvarint, addons_len, encode_request, encode_destination, request_bytes,
}
use sing_vmess.Vless.Vision.{Padder, padding, padding_len, Unpadder}
use sing_vmess.Vless.Vision.Pieces.{unpad_all}
use sing_vmess.Vless.Vision.Unpadding.{
  between, IsRun, contents, last_command, pad_each, unpadding-padding,
}

abbrev uvarint_len : ℕ → ℕ
uvarint_len n = length (put_uvarint 10 n)

abbrev request : Request ℕ
request = record { uuid = replicate 16 7; command = 1; destination = 443; flow = 120 ∷ 121 ∷ [] }

abbrev encoded : Bytes
encoded = request_bytes toy_serializer uvarint_len request (put_u16 443)

addons_small : addons_len toy_serializer uvarint_len request < 256
unfolding addons_len put_uvarint
addons_small = omega arith

encodes : encode_request toy_serializer uvarint_len request ≡ some encoded
unfolding encode_request encode_destination
encodes = refl

-- A random source that always gives zero, and a buffer of zeros.
abbrev entropy : ℕ → ℕ → ℕ
entropy n k = 0

entropy-bounded : (n k : ℕ) → 0 < k → entropy n k < k
entropy-bounded n k h = h

abbrev filler : ℕ → Bytes
filler n = replicate n 0

filler-filled : (n : ℕ) → length (filler n) ≡ n
filler-filled n = length-replicate n 0

abbrev padder : Padder
padder = record { user_uuid = replicate 16 7; write_uuid = true; is_tls = true; drawn = 0 }

abbrev unpadder : Unpadder
unpadder = record { user_uuid = replicate 16 7; remaining = none; current_command = 0; header = [] }

-- Two buffers, the second with the command to end, and a byte behind; the pieces cut the second block.
abbrev buffers : List (Bytes × ℕ)
buffers = (1 ∷ 2 ∷ [], 0) ∷ (3 ∷ [], 1) ∷ []

abbrev padded : Bytes
padded = pad_each entropy filler buffers padder ++ (9 ∷ [])

padded_long : 21 ≤ length (take 22 padded)
unfolding pad_each padding padding_len
padded_long = omega arith

unpadding-padding_example :
    unpad_all (take 22 padded ∷ drop 22 padded ∷ []) unpadder
    ≡ (1 ∷ 2 ∷ 3 ∷ 9 ∷ [], between (replicate 16 7) 1)
unfolding contents last_command
unpadding-padding_example =
    unpadding-padding entropy filler entropy-bounded filler-filled buffers (9 ∷ []) padder unpadder
      (take 22 padded) (drop 22 padded ∷ []) (omega arith, (omega arith, tt))
      (unfold IsRun in (refl, inl refl)) refl refl refl refl refl padded_long
      (ap (λ b. take 22 padded ++ b) (append-nil (drop 22 padded)) ∙ take-append-drop 22 padded)

abbrev sent : Sink
sent = state_of (write_packet toy_serializer (1 ∷ 2 ∷ []) 53 (open_sink []))

read_packet-write_packet_example :
    (read_packet toy_serializer 10 (sent.sent ++ (9 ∷ [])) ≡ ok (53, 1 ∷ 2 ∷ []) (9 ∷ []))
    × (read_from toy_serializer 1 (sent.sent ++ (9 ∷ [])) ≡ ok (53, take 1 (1 ∷ 2 ∷ [])) (9 ∷ []))
unfolding write_packet write write_with
read_packet-write_packet_example =
    read_packet-write_packet toy_serializer toy_serializer-IsSerializer 10 1 (1 ∷ 2 ∷ [])
      (put_u16 53) (9 ∷ []) 53 sent refl (omega arith) (omega arith) refl
