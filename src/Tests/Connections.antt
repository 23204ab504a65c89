-- ===== src/Tests/Connections.antt =====
-- Inputs for the two ends of VLESS (vless/client.go, vless/service.go).
use sing_vmess.Base.{
  ℕ, ◌<◌, ◌≡◌, refl, inl, true, false, none, some, List, [], ◌∷◌, ◌++◌, arith, ◌==◌, if◌then◌else◌,
  ==_iff, length, replicate, bad_address, ok, err, Bytes, put_u16, read_full, open_sink,
}
use sing_vmess.Address.{toy_serializer, toy_serializer-IsSerializer}
use sing_vmess.Vless.Request.{
  Request, command_udp, command_mux, put_uvarint, addons_len, request_len, encode_request,
  encode_destination, request_bytes, read_request,
}
use sing_vmess.Vless.Client.{
  new_conn, read_conn, PacketConn, write_conn, write_buffer, write_packet,
}
use sing_vmess.Vless.Client.Stream.{
  Call, by_write, by_buffer, idle, stream_of, view, sends, sends-view, read_request-sends,
  write_conn_unencoded,
}
use sing_vmess.Vless.Client.Packets.{
  packet_conn, write_all, receive_all, receive_all-write_all, receive_all-write_packet,
}
use sing_vmess.Vless.Service.Stream as Streams
use sing_vmess.Vless.Service.Packets as Packets
use sing_vmess.Vless.Service.Users.{
  Service, Entry, update_users, flow_vision, same_bytes, to_stream, look_up, flow_of_user, serve,
  serve_found, serve_user, with_flow, hand_over, add_users,
}
use sing_vmess.Vless.Service.Users.Lookup.{IsFor, serve-update_users, serve-IsFor}

abbrev uvarint_len : ℕ → ℕ
uvarint_len n = length (put_uvarint 10 n)

abbrev request : Request ℕ
request = record { uuid = replicate 16 7; command = 1; destination = 443; flow = 120 ∷ 121 ∷ [] }

abbrev encoded : Bytes
encoded = request_bytes toy_serializer uvarint_len request (put_u16 443)

addons_small : addons_len toy_serializer uvarint_len request < 256
unfolding addons_len put_uvarint
addons_small = omega arith

encodes : encode_request toy_serializer uvarint_len request ≡ some encoded
unfolding encode_request encode_destination
encodes = refl

abbrev headroom : Bytes
headroom = replicate 25 0

room_size : length headroom ≡ request_len toy_serializer uvarint_len request
unfolding request_len addons_len put_uvarint
room_size = refl

-- A buffer, and then a plain write.
abbrev calls : List Call
calls = by_buffer headroom (1 ∷ 2 ∷ []) ∷ by_write (3 ∷ []) ∷ []

sends-view_example :
    sends toy_serializer uvarint_len calls (view request encoded [] idle)
    ≡ ok tt (view request encoded [] (stream_of calls idle))
sends-view_example =
    sends-view toy_serializer toy_serializer-IsSerializer uvarint_len (λ n. refl) request encoded []
      calls idle refl addons_small encodes (room_size, (tt, tt))

read_request-sends_example :
    (out : Bytes) × (sends toy_serializer uvarint_len calls (new_conn request (open_sink []) [])
      ≡ ok tt (record (new_conn request (open_sink out) []) { request_written = true }))
    × (read_request toy_serializer out
        ≡ ok
            (record request { destination = if 1 == command_mux then 0 else 443 })
            (1 ∷ 2 ∷ 3 ∷ []))
read_request-sends_example =
    read_request-sends toy_serializer toy_serializer-IsSerializer uvarint_len (λ n. refl) request
      encoded [] (by_buffer headroom (1 ∷ 2 ∷ [])) (by_write (3 ∷ []) ∷ []) refl addons_small
      encodes (room_size, (tt, tt))

-- A destination that the serializer cannot write.
abbrev far : Request ℕ
far = record request { destination = 70000 }

far_fails : encode_request toy_serializer uvarint_len far ≡ none
unfolding encode_request encode_destination
far_fails = refl

write_conn_unencoded_example :
    (write_conn toy_serializer uvarint_len (1 ∷ []) (new_conn far (open_sink []) [])
      ≡ err bad_address (record (new_conn far (open_sink []) []) { request_written = true }))
    × (write_conn toy_serializer uvarint_len
          (2 ∷ [])
          (record (new_conn far (open_sink []) []) { request_written = true })
        ≡ ok 1 (record (new_conn far (open_sink (2 ∷ [])) []) { request_written = true }))
    × (write_buffer toy_serializer uvarint_len [] (1 ∷ []) (new_conn far (open_sink []) [])
        ≡ err bad_address (new_conn far (open_sink []) []))
write_conn_unencoded_example =
    write_conn_unencoded toy_serializer uvarint_len far [] (1 ∷ []) (2 ∷ []) [] far_fails

receive_all-write_all_example :
    (out : Bytes) × (write_all toy_serializer uvarint_len
        ((1 ∷ 2 ∷ []) ∷ (3 ∷ []) ∷ [])
        (packet_conn (replicate 16 7) 443 [] false [] [])
      ≡ ok tt (packet_conn (replicate 16 7) 443 [] true out []))
    × (receive_all toy_serializer 9 2 out
        ≡ ok
            (
              record { uuid = replicate 16 7; command = command_udp; destination = 443; flow = [] },
              (1 ∷ 2 ∷ []) ∷ (3 ∷ []) ∷ [],
            )
            [])
receive_all-write_all_example =
    receive_all-write_all toy_serializer toy_serializer-IsSerializer uvarint_len (λ n. refl)
      (replicate 16 7) [] [] (put_u16 443) (1 ∷ 2 ∷ []) 443 ((3 ∷ []) ∷ []) 9 refl refl
      ((omega arith, omega arith), ((omega arith, omega arith), tt))

receive_all-write_packet_example :
    (out : Bytes) × (write_packet toy_serializer uvarint_len
        (5 ∷ [])
        (packet_conn (replicate 16 7) 443 [] false [] [])
      ≡ ok tt (packet_conn (replicate 16 7) 443 [] true out []))
    × (receive_all toy_serializer 9 1 out
        ≡ ok
            (
              record { uuid = replicate 16 7; command = command_udp; destination = 443; flow = [] },
              (0 ∷ 1 ∷ 5 ∷ []) ∷ [],
            )
            [])
receive_all-write_packet_example =
    receive_all-write_packet toy_serializer toy_serializer-IsSerializer uvarint_len (λ n. refl)
      (replicate 16 7) [] [] (put_u16 443) (5 ∷ []) 443 9 refl refl (omega arith) (omega arith)

read_conn-replies_example :
    (out : Bytes) × (Streams.replies
        (Streams.by_write [] ∷ Streams.by_buffer (4 ∷ []) ∷ [])
        (Streams.server_view idle)
      ≡ ok tt (record { response_written = true; sink = open_sink out }))
    × (read_conn (read_full 1) (record (new_conn request (open_sink []) []) { source = out })
        ≡ read_conn
            (read_full 1)
            (record (new_conn request (open_sink []) []) { source = 4 ∷ []; response_read = true }))
read_conn-replies_example =
    Streams.read_conn-replies (new_conn request (open_sink []) []) (read_full 1)
      (Streams.by_write []) (Streams.by_buffer (4 ∷ []) ∷ []) refl

abbrev listener : PacketConn ℕ
listener = packet_conn (replicate 16 7) 443 [] true [] []

reads-replies_example :
    (out : Bytes) × (Packets.replies
        (Packets.by_write_to (4 ∷ []) ∷ Packets.by_write_packet [] ∷ [])
        Packets.new_server
      ≡ ok tt (record { response_written = true; sink = open_sink out }))
    × (Packets.reads 9 2 (record listener { source = out })
        ≡ ok ((4 ∷ []) ∷ [] ∷ []) (record listener { response_read = true; source = [] }))
reads-replies_example =
    Packets.reads-replies listener (Packets.by_write_to (4 ∷ [])) (Packets.by_write_packet [] ∷ [])
      9 refl ((omega arith, omega arith), ((omega arith, omega arith), tt))

-- Two users, the second behind the vision flow.
abbrev alice : Entry ℕ
alice = record { name = 1; id = 7 ∷ []; flow = [] }

abbrev bob : Entry ℕ
bob = record { name = 2; id = 8 ∷ []; flow = flow_vision }

abbrev empty_service : Service ℕ
empty_service = record { user_map = []; user_flow = [] }

abbrev hello : Request ℕ
hello = record { uuid = 7 ∷ []; command = 1; destination = 443; flow = [] }

==-refl : (n : ℕ) → (n == n) ≡ true
==-refl n = (==_iff n n).1 refl

serve-update_users_example :
    serve toy_serializer ◌==◌ true
      (update_users (λ b. b) ([] ++ (alice ∷ bob ∷ [])) empty_service)
      hello
      []
    ≡ ok (to_stream (same_bytes [] flow_vision) 1 443) []
serve-update_users_example =
    serve-update_users ◌==◌ (λ b. b) toy_serializer ==-refl [] (bob ∷ []) alice empty_service hello
      [] ((unfold same_bytes in refl), tt) (refl, tt) refl refl refl (inl refl)

served :
    serve toy_serializer ◌==◌ true (update_users (λ b. b) (alice ∷ bob ∷ []) empty_service) hello []
    ≡ ok (to_stream false 1 443) []
unfolding serve serve_found serve_user with_flow hand_over flow_of_user look_up same_bytes
    update_users add_users
served = refl

serve-IsFor_example :
    (user : ℕ) × (look_up same_bytes
        (update_users (λ b. b) (alice ∷ bob ∷ []) empty_service).user_map
        (7 ∷ [])
      ≡ some user)
    × ([]
        ≡ flow_of_user toy_serializer ◌==◌
            (update_users (λ b. b) (alice ∷ bob ∷ []) empty_service)
            user)
    × IsFor user hello (to_stream false 1 443)
serve-IsFor_example =
    serve-IsFor toy_serializer ◌==◌ true (update_users (λ b. b) (alice ∷ bob ∷ []) empty_service)
      hello [] [] (to_stream false 1 443) served
