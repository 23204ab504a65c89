-- ===== src/Tests/Muxes.antt =====
-- Inputs for the multiplexer (mux.go, mux_wrapper.go, xudp.go).
use sing_vmess.Base.{
  ℕ, ◌-◌, ◌≡◌, refl, true, none, some, List, [], ◌∷◌, ◌++◌, map, arith, take, drop, All, concat,
  eof, ok, state_of, Bytes, put_u16, open_sink,
}
use sing_vmess.Address.{toy_serializer, toy_serializer-IsSerializer}
use sing_vmess.Mux.Frame.{frame, write_packet_frame}
use sing_vmess.Mux.Session.{Session, Stream, new_pipe, find, local_close, close_stream, recv}
use sing_vmess.Mux.Session.Streams.{IsOwned, close_stream_once}
use sing_vmess.Mux.Session.Streams.Ownership.{recv-IsOwned}
use sing_vmess.Mux.Session.Streams.Delivery.{IsOpen, IsFrameFor, payloads, recvs, recvs-demultiplex}
use sing_vmess.Mux.Race.{Event, arrives, enters, run}
use sing_vmess.Mux.Race.Flushing.{idle, working, run_reverse_held}
use sing_vmess.Mux.Wrapper.{MuxConnWrapper, read_buffer}
use sing_vmess.Mux.Wrapper.Reading.{keep_alives, read_buffer-frame}
use sing_vmess.Mux.Xudp.{XudpConn, read_packet}
use sing_vmess.Mux.Xudp.RoundTrip.{read_packet-write_packet_frame}

-- Two streams of TCP, 5 and 7, with the pipes 0 and 1, and three frames for them.
abbrev stream : ℕ → Stream ℕ
stream k = record { network = 1; destination = 80; pipe = k }

abbrev frames : List (ℕ × Bytes)
frames = (5, 1 ∷ []) ∷ (7, 2 ∷ 3 ∷ []) ∷ (5, 4 ∷ []) ∷ []

abbrev session : Session ℕ
session = record {
  conn = concat (map (λ f. frame f.0 f.1) frames) ++ (9 ∷ []);
  streams = (5, stream 0) ∷ (7, stream 1) ∷ [];
  pipes = λ k. new_pipe;
  next_pipe = 2;
  started = [];
  closing = [];
  buffered = [];
}

session-IsOwned : IsOwned session
unfolding IsOwned find
session-IsOwned = (λ id st h. ground arith, λ i j a b hi hj e. ground arith)

five-IsOpen : IsOpen session 5
unfolding IsOpen find
five-IsOpen = (stream 0, refl, refl, refl, refl)

seven-IsOpen : IsOpen session 7
unfolding IsOpen find
seven-IsOpen = (stream 1, refl, refl, refl, refl)

frames-IsFrameFor : All (IsFrameFor toy_serializer session) frames
unfolding IsFrameFor
frames-IsFrameFor = (
  (omega arith, omega arith, omega arith, five-IsOpen),
  (
    (omega arith, omega arith, omega arith, seven-IsOpen),
    ((omega arith, omega arith, omega arith, five-IsOpen), tt),
  ),
)

recvs-demultiplex_example :
    (c' : Session ℕ) × (recvs toy_serializer 3 session ≡ ok tt c')
    × (c'.conn ≡ 9 ∷ [])
    × ((c'.pipes 0).written ≡ [] ++ payloads 5 frames)
unfolding find
recvs-demultiplex_example =
    recvs-demultiplex toy_serializer frames (9 ∷ []) session 5 (stream 0) session-IsOwned
      frames-IsFrameFor refl refl

recv-IsOwned_example : IsOwned (state_of (recv toy_serializer session))
recv-IsOwned_example = recv-IsOwned toy_serializer session session-IsOwned

close_stream_once_example :
    (find 5 (local_close 5 none session).1.streams ≡ none)
    × (close_stream 5 (some eof) (local_close 5 none session).1
        ≡ ok tt (local_close 5 none session).1)
close_stream_once_example = close_stream_once 5 none (some eof) session

abbrev fifo : List Event
fifo = arrives ((1 ∷ []) ∷ (2 ∷ []) ∷ []) ∷ arrives ((3 ∷ []) ∷ []) ∷ enters 0 ∷ enters 0 ∷ []

abbrev reverse : List Event
reverse = arrives ((1 ∷ []) ∷ []) ∷ arrives ((2 ∷ []) ∷ []) ∷ enters 1 ∷ enters 0 ∷ []

run_reverse_held_example :
    ((run reverse (idle 0 [])).waiting ≡ [])
    × ((run reverse (idle 0 [])).writer ≡ working (2 ∷ []) (1 ∷ []))
run_reverse_held_example =
    run_reverse_held ((1 ∷ []) ∷ []) ((2 ∷ []) ∷ []) 0 [] (omega arith) (omega arith)

-- Two keep-alive frames and then a frame of three bytes, of which two fit what is ready.
abbrev wrapper : Bytes → ℕ → MuxConnWrapper ℕ
wrapper conn remaining = record {
  conn = conn;
  sink = open_sink [];
  destination = 80;
  request_written = true;
  remaining = remaining;
}

read_buffer-frame_example :
    (n : ℕ) × (n ≡ 2)
    × (read_buffer 2 10 (wrapper (keep_alives 2 ++ (frame 0 (1 ∷ 2 ∷ 3 ∷ []) ++ (9 ∷ []))) 0)
        ≡ ok (take n (1 ∷ 2 ∷ 3 ∷ [])) (wrapper (drop n (1 ∷ 2 ∷ 3 ∷ []) ++ (9 ∷ [])) (3 - n)))
read_buffer-frame_example =
    read_buffer-frame 2 2 10 0 1 (2 ∷ 3 ∷ []) (9 ∷ [])
      (wrapper (keep_alives 2 ++ (frame 0 (1 ∷ 2 ∷ 3 ∷ []) ++ (9 ∷ []))) 0) (omega arith)
      (omega arith) refl refl

abbrev xudp_conn : Bytes → XudpConn ℕ
xudp_conn conn = record {
  conn = conn;
  sink = open_sink [];
  destination = 80;
  request_written = true;
}

abbrev packet_bytes : Bytes
packet_bytes = state_of (write_packet_frame toy_serializer 3 (1 ∷ 2 ∷ []) 53 [])

read_packet-write_packet_frame_example :
    read_packet toy_serializer 20 (xudp_conn (packet_bytes ++ (9 ∷ [])))
    ≡ ok (53, 1 ∷ 2 ∷ []) (xudp_conn (9 ∷ []))
read_packet-write_packet_frame_example =
    read_packet-write_packet_frame toy_serializer toy_serializer-IsSerializer 20 3 (1 ∷ 2 ∷ [])
      (put_u16 53) (9 ∷ []) 53 (xudp_conn (packet_bytes ++ (9 ∷ []))) refl refl (omega arith)
      (omega arith) (omega arith) refl
