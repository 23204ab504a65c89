-- ===== src/Tests/Packets.antt =====
-- Inputs for the loops and layers of single packets (mux_wrapper.go, mux.go, chunk_stream.go, packetaddr/conn.go).
use sing_vmess.Base.{
  ℕ, suc, ◌+◌, ◌<◌, ◌≡◌, refl, ◌⊎◌, true, some, [], ◌∷◌, arith, length, Error, ok, err, Bytes,
  put_u16, write, open_sink, write_with,
}
use sing_vmess.Address.{toy_serializer, toy_serializer-IsSerializer}
use sing_vmess.Mux.Frame.{write_packet_frame}
use sing_vmess.Mux.Packets.{write_packet, write_packet-write_packet_frame}
use sing_vmess.Mux.Wrapper.{MuxConnWrapper, next_frame}
use sing_vmess.Mux.Wrapper.Termination.{next_frame_ends}
use sing_vmess.Chunk.Legacy.{StreamCipher, write_stream}
use sing_vmess.Chunk.Legacy.RoundTrip.{IsStream, write_all, read_all, read_all-write_all}
use sing_vmess.PacketAddr.Datagram as Datagram
use sing_vmess.PacketAddr.Datagram.{read_packet-write_to}

-- A keep-alive frame, and the start of another.
abbrev wrapper : MuxConnWrapper ℕ
wrapper = record {
  conn = 0 ∷ 4 ∷ 0 ∷ 0 ∷ 4 ∷ 0 ∷ 0 ∷ [];
  sink = open_sink [];
  destination = 443;
  request_written = true;
  remaining = 0;
}

next_frame_ends_example :
    (next_frame (suc (length wrapper.conn) + 3) 100 wrapper
      ≡ next_frame (suc (length wrapper.conn)) 100 wrapper)
    × (((e : Error) × (w' : MuxConnWrapper ℕ) × (next_frame (suc (length wrapper.conn)) 100 wrapper
            ≡ err e w'))
        ⊎ ((w' : MuxConnWrapper ℕ) × (next_frame (suc (length wrapper.conn)) 100 wrapper ≡ ok tt w')
            × (0 < w'.remaining)))
next_frame_ends_example = next_frame_ends 100 3 wrapper

write_packet-write_packet_frame_example :
    (out : Bytes) × (write_packet toy_serializer 5 (1 ∷ 2 ∷ []) 443 (open_sink [])
      ≡ ok tt (open_sink out))
    × (write_packet_frame toy_serializer 5 (1 ∷ 2 ∷ []) 443 [] ≡ ok tt out)
write_packet-write_packet_frame_example =
    write_packet-write_packet_frame toy_serializer 5 (1 ∷ 2 ∷ []) (put_u16 443) [] 443 refl refl

-- A cipher that does nothing.
abbrev idle_cipher : StreamCipher (Unit {0})
idle_cipher = record { xor_key_stream = λ s p. (p, s) }

idle_cipher-IsStream : IsStream idle_cipher idle_cipher tt tt
idle_cipher-IsStream = record {
  encrypt-append = λ u p q. refl;
  decrypt-append = λ u p q. refl;
  decrypt_nil = λ u. refl;
  encrypt_nil = λ u. refl;
  decrypt-encrypt = λ p. refl;
}

written :
    write_all idle_cipher idle_cipher tt tt idle_cipher-IsStream
      ((1 ∷ 2 ∷ []) ∷ (3 ∷ []) ∷ [])
      (record { cipher = tt; upstream = open_sink [] })
    ≡ ok tt (record { cipher = tt; upstream = open_sink (1 ∷ 2 ∷ 3 ∷ []) })
unfolding write_all write_stream write write_with
written = refl

read_all-write_all_example :
    (u : Unit {0}) × (read_all idle_cipher idle_cipher tt tt idle_cipher-IsStream 2
        (record { cipher = tt; upstream = (1 ∷ []) ∷ (2 ∷ 3 ∷ []) ∷ [] })
      ≡ ok (1 ∷ 2 ∷ 3 ∷ []) (record { cipher = u; upstream = [] }))
read_all-write_all_example =
    read_all-write_all idle_cipher idle_cipher tt tt idle_cipher-IsStream
      ((1 ∷ 2 ∷ []) ∷ (3 ∷ []) ∷ []) ((1 ∷ []) ∷ (2 ∷ 3 ∷ []) ∷ [])
      (record { cipher = tt; upstream = open_sink (1 ∷ 2 ∷ 3 ∷ []) }) written refl

-- A slice of the length of the packet: its last two bytes are lost.
read_packet-write_to_example :
    (datagram : Bytes) × (Datagram.write_to toy_serializer (1 ∷ 2 ∷ 3 ∷ []) 443 ≡ some datagram)
    × (Datagram.write_packet toy_serializer (0 ∷ 0 ∷ []) (1 ∷ 2 ∷ 3 ∷ []) 443
        ≡ ok tt (some datagram))
    × (Datagram.read_packet toy_serializer 3 datagram ≡ ok 443 (1 ∷ []))
read_packet-write_to_example =
    read_packet-write_to toy_serializer toy_serializer-IsSerializer (1 ∷ 2 ∷ 3 ∷ []) (0 ∷ 0 ∷ [])
      (put_u16 443) 443 3 refl refl refl (omega arith)
