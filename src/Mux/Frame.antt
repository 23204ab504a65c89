-- ===== src/Mux/Frame.antt =====
-- The constants and the frames of the multiplexer (protocol.go, and the write functions of mux.go).
use sing_vmess.Base.{
  ℕ, ◌+◌, ◌≡◌, Bool, Option, none, some, [], ◌∷◌, ◌++◌, append_assoc, if◌then◌else◌, length,
  bad_address, ok, Prog, pure, fail, ◌>>◌, Bytes, put_u16,
}
use sing_vmess.Address.{Serializer}

abbrev pub status_new : ℕ
status_new = 1

abbrev pub status_keep : ℕ
status_keep = 2

abbrev pub status_end : ℕ
status_end = 3

abbrev pub status_keep_alive : ℕ
status_keep_alive = 4

abbrev pub option_data : ℕ
option_data = 1

abbrev pub option_error : ℕ
option_error = 2

abbrev pub network_tcp : ℕ
network_tcp = 1

abbrev pub network_udp : ℕ
network_udp = 2

-- The session's std_bufio.Writer, by the bytes that it holds: it reports an error only when it flushes.
abbrev pub put : Bytes → Prog Bytes (Unit {0})
put b w = ok tt (w ++ b)

abbrev pub put_option : Option Bytes → Prog Bytes (Unit {0})
put_option none = fail bad_address
put_option (some b) = put b

-- writeFrame.
pub write_frame : ℕ → Bytes → Prog Bytes (Unit {0})
write_frame session_id p = do
  put (put_u16 4)
  put (put_u16 session_id)
  put (status_keep ∷ [])
  put (option_data ∷ [])
  put (put_u16 (length p))
  put p

-- writeCloseFrame.
pub write_close_frame : ℕ → Bool → Prog Bytes (Unit {0})
write_close_frame session_id has_error = do
  put (put_u16 4)
  put (put_u16 session_id)
  put (status_end ∷ [])
  put ((if has_error then option_error else 0) ∷ [])

module _ {A : Type 0} (s : Serializer A) where
  unfoldable pub write_destination : A → Prog Bytes (Unit {0})
  write_destination destination =
      if s.is_valid destination
      then (do put (network_udp ∷ []); put_option (s.write_addr destination))
      else pure tt

  -- writePacketFrame. The length counts an address also where none is written.
  unfoldable pub write_packet_frame : ℕ → Bytes → A → Prog Bytes (Unit {0})
  unfolding write_destination
  write_packet_frame session_id p destination = do
    put (put_u16 (5 + s.addr_len destination))
    put (put_u16 session_id)
    put (status_keep ∷ [])
    put (option_data ∷ [])
    write_destination destination
    put (put_u16 (length p))
    put p

-- A frame of data, as bytes.
abbrev pub frame : ℕ → Bytes → Bytes
frame session_id p =
    put_u16 4 ++ (put_u16 session_id ++ (status_keep ∷ option_data ∷ (put_u16 (length p) ++ p)))

pub write_frame-frame :
    (session_id : ℕ) (p w : Bytes) → write_frame session_id p w ≡ ok tt (w ++ frame session_id p)
unfolding write_frame
write_frame-frame session_id p w = simp append_assoc
