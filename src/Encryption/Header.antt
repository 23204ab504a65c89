-- ===== src/Encryption/Header.antt =====
-- The five-byte record header of vless/encryption/common.go, in the shape of a TLS 1.3 record.
use sing_vmess.Base.{
  ℕ, ◌+◌, ◌≤◌, ◌≡◌, refl, Bool, true, not, ◌&&◌, ◌||◌, [], ◌∷◌, arith, ltb, leb, ◌==◌,
  if◌then◌else◌, length, get_or, invalid_header, ok, err, Prog, pure, fail, Bytes, IsByte, IsU16,
  put_u16, u16, u16-put,
}

abbrev pub header_length : ℕ
header_length = 5

abbrev pub min_packet_length : ℕ
min_packet_length = 17

abbrev pub max_packet_length : ℕ
max_packet_length = 16384 + 256

-- encodeHeader: `uint16(length)` wraps.
pub encode_header : ℕ → Bytes
encode_header length = 23 ∷ 3 ∷ 3 ∷ put_u16 length

-- The length of decodeHeader, which is given back with an error too. The header is a slice of five bytes.
unfoldable pub header_word : Bytes → ℕ
header_word h = u16 (get_or h 3 0) (get_or h 4 0)

-- Whether decodeHeader reports no error.
unfoldable pub header_valid : Bytes → Bool
unfolding header_word
header_valid h =
    get_or h 0 0 == 23
    && get_or h 1 0 == 3
    && get_or h 2 0 == 3
    && not (ltb (header_word h) min_packet_length || ltb max_packet_length (header_word h))

-- decodeHeader as a fallible step.
unfoldable pub decode_header : {S : Type 0} → Bytes → Prog S ℕ
decode_header h = if header_valid h then pure (header_word h) else fail invalid_header

pub length-encode_header : (n : ℕ) → length (encode_header n) ≡ 5
unfolding encode_header
length-encode_header n = refl

pub header_word-encode : (n : ℕ) → IsU16 n → header_word (encode_header n) ≡ n
unfolding header_word encode_header
header_word-encode n h = u16-put n h

-- Of the lengths that fit sixteen bits, decodeHeader gives back the length that encodeHeader has written
-- exactly if it is that of a record, of one byte to a full TLS record of data and the tag, and else an
-- error.
pub decode-encode_header :
    {S : Type 0} (n : ℕ) (s : S)
    → IsU16 n
    → decode_header (encode_header n) s ≡ (
        if leb min_packet_length n && leb n max_packet_length then ok n s else err invalid_header s)
unfolding decode_header header_valid header_word encode_header
decode-encode_header n s h = rw (u16-put n h) (ground arith)

-- Any five bytes that are accepted are the encoding of the length that is read from them.
pub encode-decode_header :
    {S : Type 0} (a b c d e n : ℕ) (s t : S)
    → IsByte d
    → IsByte e
    → decode_header (a ∷ b ∷ c ∷ d ∷ e ∷ []) s ≡ ok n t
    → (encode_header n ≡ a ∷ b ∷ c ∷ d ∷ e ∷ []) × (min_packet_length ≤ n) × (n ≤ max_packet_length)
unfolding decode_header header_valid header_word encode_header
encode-decode_header a b c d e n s t hd he p = ground arith

pub encode_header_valid :
    (n : ℕ) → min_packet_length ≤ n → n ≤ max_packet_length → header_valid (encode_header n) ≡ true
unfolding header_valid header_word encode_header
encode_header_valid n lo hi = rw (u16-put n (omega arith)) (ground arith)
