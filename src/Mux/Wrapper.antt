-- ===== src/Mux/Wrapper.antt =====
-- MuxConnWrapper (mux_wrapper.go): the client's end of a connection that carries one stream.
pub mod Reading
pub mod Termination
use sing_vmess.Base.{
  ℕ, zero, suc, ◌+◌, ◌-◌, ◌*◌, ◌/◌, ◌%◌, ◌^◌, ◌≤◌, ◌<◌, min, bit_and, bit_or, bit_xor, ◌≡◌, refl,
  sym, ap, ap₂, ◌∙◌, subst, ◌≢◌, ◌↔◌, ◌⊎◌, inl, inr, Bool, true, false, not, ◌&&◌, ◌||◌, Option,
  none, some, List, [], ◌∷◌, ◌++◌, map, append-nil, append_assoc, arith, ltb, leb, ◌==◌,
  if◌then◌else◌, lt→ltb, le→leb, ==_iff, Bool-cases, length, get_or, take, drop, replicate,
  length-append, take-append-drop, length-take, length-drop, length-replicate, take_all, drop_all,
  take_ge, drop_ge, All, concat, Error, eof, unexpected_eof, short_buffer, upstream,
  bad_length_chunk, invalid_checksum, open_failed, unexpected_frame_new, unexpected_frame,
  remote_closed, invalid_frame_length, bad_address, bad_network, bad_session_status, pipe_closed,
  unknown_version, unknown_header, overflow, invalid_header, unknown_command, blocked,
  fqdn_unsupported, empty_segment, segment_too_large, invalid_segment, Outcome, ok, err, Prog, pure,
  fail, state_of, and_then, ◌>>=◌, ◌>>◌, Lens, lift, zoom, gets, modify, bit_xor_cancel, bit_xor-lt,
  bit_xor-zero, Bytes, IsByte, IsU16, put_u16, u16, put_u32, u16-put, short, read_full, discard,
  read_byte, read_u16, read_full-append, discard-append, read_full-short, length-read_full, Sink,
  write, open_sink, write_open,
}
use sing_vmess.Address.{Serializer}
use sing_vmess.Mux.Frame.{
  status_new, status_keep, status_end, status_keep_alive, option_data, option_error, network_tcp,
}

-- `conn` is what is still to be read, `sink` the connection as it is written.
pub record MuxConnWrapper (A : Type 0) : Type 0 where
  pub conn : Bytes
  pub sink : Sink
  pub destination : A
  pub request_written : Bool
  pub remaining : ℕ

-- `buffer.ReadFullFrom(c.Conn, 6)`, in a buffer with `room` bytes free, and of the header its length, its
-- status and its option.
pub read_header : ℕ → Prog Bytes (ℕ × (ℕ × ℕ))
read_header room conn =
    if ltb room 6
    then err short_buffer conn
    else and_then (read_full 6 conn)
        λ h. pure (u16 (get_or h 0 0) (get_or h 1 0), (get_or h 4 0, get_or h 5 0))

-- `c.Conn.Read(p)` for `p` with `room` bytes, where the connection has `ready` bytes or, if fewer are to
-- come, those.
pub conn_read : ℕ → ℕ → Prog Bytes Bytes
conn_read ready room [] = err eof []
conn_read ready room (b ∷ bs) = let n = min ready room in ok (take n (b ∷ bs)) (drop n (b ∷ bs))

module _ {A : Type 0} where
  abbrev pub conn_lens : Lens (MuxConnWrapper A) Bytes
  conn_lens = record { get = λ w. w.conn; put = λ w b. record w { conn = b } }

  abbrev pub sink_lens : Lens (MuxConnWrapper A) Sink
  sink_lens = record { get = λ w. w.sink; put = λ w s. record w { sink = s } }

  -- The switch over the status, which throws away the rest of a header that is longer than its fixed part.
  pub check_status : ℕ → ℕ → Prog (MuxConnWrapper A) (Unit {0})
  check_status length status =
      if status == status_new
      then fail unexpected_frame_new
      else if status == status_keep
      then (if ltb 4 length then zoom conn_lens (discard (length - 4)) else pure tt)
      else if status == status_end
      then fail eof
      else if status == status_keep_alive
      then pure tt
      else fail unexpected_frame

  -- The bits of the option.
  pub check_option : ℕ → Prog (MuxConnWrapper A) (Unit {0})
  check_option option =
      if bit_and option option_error == option_error
      then fail remote_closed
      else if bit_and option option_data == option_data
      then (do length ← zoom conn_lens read_u16; modify λ w. record w { remaining = length })
      else pure tt

  -- One turn of the loop of ReadBuffer.
  pub read_frame : ℕ → Prog (MuxConnWrapper A) (Unit {0})
  unfolding read_header
  read_frame room = do
    (length, header) ← zoom conn_lens (read_header room)
    check_status length header.0
    check_option header.1

  -- `for c.remaining == 0`. The fuel bounds the turns, each of which takes six bytes or more.
  pub next_frame : ℕ → ℕ → Prog (MuxConnWrapper A) (Unit {0})
  next_frame zero room w = ok tt w
  next_frame (suc fuel) room w =
      let rest = next_frame fuel room in
      if w.remaining == 0 then (read_frame room >> rest) w else ok tt w

  -- The end of ReadBuffer, inside a frame.
  read_payload : ℕ → ℕ → Prog (MuxConnWrapper A) Bytes
  read_payload ready room w =
      and_then (zoom conn_lens (conn_read ready (min w.remaining room)) w)
        λ p w'. ok p (record w' { remaining = w'.remaining - length p })

  -- ReadBuffer into a buffer with `room` bytes free.
  pub read_buffer : ℕ → ℕ → Prog (MuxConnWrapper A) Bytes
  unfolding read_payload
  read_buffer ready room w =
      and_then (next_frame (suc (length w.conn)) room w) λ u. read_payload ready room

module _ {A : Type 0} (s : Serializer A) where
  -- WriteBuffer. The header of the first frame has the destination, and room for exactly its length.
  pub write_buffer : Bytes → Prog (MuxConnWrapper A) (Unit {0})
  write_buffer p w =
      if w.request_written
      then zoom sink_lens (write (put_u16 4 ++ (0 ∷ 0 ∷ 2 ∷ 1 ∷ (put_u16 (length p) ++ p)))) w
      else elim (s.write_addr w.destination) [
        | none ↦ err bad_address w
        | some a ↦
            zoom sink_lens
              (write (
                put_u16 (5 + s.addr_len w.destination)
                ++ (0 ∷ 0 ∷ 1 ∷ 1 ∷ network_tcp ∷ (a ++ (put_u16 (length p) ++ p)))))
              (record w { request_written = true })
      ]
