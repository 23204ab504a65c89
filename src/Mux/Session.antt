-- ===== src/Mux/Session.antt =====
-- serverSession (mux.go): the frames of one connection, given out to the streams' pipes.
mod Cleanup
pub mod Streams
use sing_vmess.Base.{
  ℕ, zero, suc, ◌+◌, ◌-◌, ◌*◌, ◌/◌, ◌%◌, ◌^◌, ◌≤◌, ◌<◌, min, bit_and, bit_or, bit_xor, ◌≡◌, refl,
  sym, ap, ap₂, ◌∙◌, subst, ◌≢◌, ◌↔◌, ◌⊎◌, inl, inr, Bool, true, false, not, ◌&&◌, ◌||◌, Option,
  none, some, List, [], ◌∷◌, ◌++◌, map, append-nil, append_assoc, arith, ltb, leb, ◌==◌,
  if◌then◌else◌, lt→ltb, le→leb, ==_iff, Bool-cases, length, get_or, take, drop, replicate,
  length-append, take-append-drop, length-take, length-drop, length-replicate, take_all, drop_all,
  take_ge, drop_ge, All, concat, Error, eof, unexpected_eof, short_buffer, upstream,
  bad_length_chunk, invalid_checksum, open_failed, unexpected_frame_new, unexpected_frame,
  remote_closed, invalid_frame_length, bad_address, bad_network, bad_session_status, pipe_closed,
  unknown_version, unknown_header, overflow, invalid_header, unknown_command, blocked,
  fqdn_unsupported, empty_segment, segment_too_large, invalid_segment, Outcome, ok, err, Prog, pure,
  fail, state_of, and_then, ◌>>=◌, ◌>>◌, Lens, lift, zoom, gets, modify, bit_xor_cancel, bit_xor-lt,
  bit_xor-zero, Bytes, IsByte, IsU16, put_u16, u16, put_u32, u16-put, short, read_full, discard,
  read_byte, read_u16, read_full-append, discard-append, read_full-short, length-read_full, Sink,
  write, open_sink, write_open,
}
use sing_vmess.Address.{Serializer}
use sing_vmess.Mux.Frame.{
  status_new, status_keep, status_end, status_keep_alive, option_data, option_error, network_tcp,
  network_udp, write_close_frame,
}

-- One io.Pipe: what was written to it, with what error (none is nil) the writing end was closed, and
-- whether the handler has closed the reading end.
pub record Pipe : Type 0 where
  pub written : Bytes
  pub closed : Option (Option Error)
  pub reader_gone : Bool

-- serverStream. A pipe is a reference into the session's pipes.
pub record Stream (A : Type 0) : Type 0 where
  pub network : ℕ
  pub destination : A
  pub pipe : ℕ

-- A handler started for a new stream: the session id, the stream, and whether it is a packet handler.
pub record Started (A : Type 0) : Type 0 where
  pub session_id : ℕ
  pub stream : Stream A
  pub packets : Bool

-- `closing` holds the arguments of the `go c.syncClose` calls that have not run yet. `buffered` is what
-- the writer holds.
pub record Session (A : Type 0) : Type 0 where
  pub conn : Bytes
  pub streams : List (ℕ × Stream A)
  pub pipes : ℕ → Pipe
  pub next_pipe : ℕ
  pub started : List (Started A)
  pub closing : List (ℕ × Bool)
  pub buffered : Bytes

abbrev pub conn_lens : {A : Type 0} → Lens (Session A) Bytes
conn_lens = record { get = λ c. c.conn; put = λ c b. record c { conn = b } }

abbrev pub writer_lens : {A : Type 0} → Lens (Session A) Bytes
writer_lens = record { get = λ c. c.buffered; put = λ c b. record c { buffered = b } }

module _ {V : Type 0} where
  unfoldable pub find : ℕ → List (ℕ × V) → Option V
  find k [] = none
  find k ((j, v) ∷ m) = if j == k then some v else find k m

  -- `delete(c.streams, sessionID)`.
  pub remove : ℕ → List (ℕ × V) → List (ℕ × V)
  remove k [] = []
  remove k ((j, v) ∷ m) = if j == k then remove k m else (j, v) ∷ remove k m

  -- `c.streams[sessionID] = stream`.
  pub insert : ℕ → V → List (ℕ × V) → List (ℕ × V)
  insert k v m = (k, v) ∷ remove k m

  pub update : (ℕ → V) → ℕ → V → ℕ → V
  update f k v j = if j == k then v else f j

abbrev pub new_pipe : Pipe
new_pipe = record { written = []; closed = none; reader_gone = false }

-- PipeWriter's Write, to the end: the handler reads all of it, unless an end is closed.
pub write_pipe : Bytes → Prog Pipe (Unit {0})
write_pipe b p = elim p.closed [
  | none ↦
      if p.reader_gone then err pipe_closed p else ok tt (record p { written = p.written ++ b })
  | some e ↦ err pipe_closed p
]

-- CloseWithError: the first one counts.
pub close_pipe : Option Error → Pipe → Pipe
close_pipe e p = elim p.closed [ none ↦ record p { closed = some e } | some d ↦ p ]

module _ {A : Type 0} where
  on_pipe : ℕ → Prog Pipe (Unit {0}) → Prog (Session A) (Unit {0})
  on_pipe k m c =
      zoom
        (record {
          get = λ (c : Session A). c.pipes k;
          put = λ c p. record c { pipes = update c.pipes k p };
        })
        m c

  close_found : ℕ → Option Error → Option (Stream A) → Session A → Bool × Session A
  close_found id e none c = (false, c)
  close_found id e (some st) c = (
    true,
    record c {
      streams = remove id c.streams;
      pipes = update c.pipes st.pipe (close_pipe e (c.pipes st.pipe));
    },
  )

  -- localClose.
  pub local_close : ℕ → Option Error → Session A → Bool × Session A
  unfolding close_found
  local_close id e c = close_found id e (find id c.streams) c

  -- syncClose with no other writer about: the frame is written and flushed to the connection, which
  -- takes it. (Race has the writers together.)
  pub sync_close : ℕ → Bool → Prog (Session A) (Unit {0})
  sync_close id has_error = zoom writer_lens (write_close_frame id has_error)

  -- close, where the caller has an error.
  pub close_stream : ℕ → Option Error → Prog (Session A) (Unit {0})
  close_stream id e c =
      let (closed, c') = local_close id e c in
      if closed then sync_close id (elim e [ none ↦ false | some x ↦ true ]) c' else ok tt c'

module _ {A : Type 0} (s : Serializer A) where
  -- `io.LimitReader(c.conn, n)` for `m`, and the rest of the limit thrown away where `m` succeeds.
  limited : {B : Type 0} → ℕ → Outcome Bytes B → Bytes → Outcome Bytes B
  limited n (ok x left) conn = ok x (drop n conn)
  limited n (err e left) conn = err e (left ++ drop n conn)

  read_network : Prog Bytes (ℕ × A)
  read_network = do network ← read_byte; destination ← s.read_addr; pure (network, destination)

  -- The part of a frame's header that `length > 4` announces.
  read_metadata : ℕ → Prog Bytes (ℕ × A)
  unfolding limited read_network
  read_metadata len conn =
      if ltb 4 len
      then limited (len - 4) (read_network (take (len - 4) conn)) conn
      else ok (0, s.empty) conn

  -- `case StatusNew`: the stream is in the map before its network is checked.
  open_stream : ℕ → ℕ → A → Prog (Session A) (Option (Stream A))
  open_stream id network destination c =
      let st : Stream A = record {
        network = network;
        destination = destination;
        pipe = c.next_pipe;
      } in
      let c' = record c {
        streams = insert id st c.streams;
        pipes = update c.pipes c.next_pipe new_pipe;
        next_pipe = c.next_pipe + 1;
      } in
      if network == network_tcp || network == network_udp
      then ok (some st) (record c' {
        started =
            c.started
            ++ (record { session_id = id; stream = st; packets = network == network_udp } ∷ []);
      })
      else err bad_network c'

  keep_found : ℕ → Option (Stream A) → Prog (Session A) (Option (Stream A))
  keep_found id none c = ok none (record c { closing = c.closing ++ ((id, true) ∷ []) })
  keep_found id (some st) c = ok (some st) c

  -- The switch over the status.
  pub dispatch : ℕ → ℕ → ℕ → ℕ → A → Prog (Session A) (Option (Stream A))
  unfolding open_stream keep_found
  dispatch id status option network destination c =
      if status == status_new
      then open_stream id network destination c
      else if status == status_keep
      then keep_found id (find id c.streams) c
      else if status == status_end
      then ok none
          (local_close id
            (if bit_and option option_error == option_error then some remote_closed else none) c).1
      else if status == status_keep_alive
      then ok none c
      else err bad_session_status c

  write_packet : ℕ → Bytes → Option Bytes → Prog (Session A) (Unit {0})
  unfolding on_pipe
  write_packet pipe p addr = do
    on_pipe pipe (write_pipe (put_u16 (length p)))
    on_pipe pipe (write_pipe p)
    elim addr [ none ↦ fail bad_address | some b ↦ on_pipe pipe (write_pipe b) ]

  -- recvTo.
  pub recv_to : Stream A → Bytes → A → Prog (Session A) (Unit {0})
  unfolding write_packet on_pipe
  recv_to st p destination =
      if st.network == network_tcp
      then on_pipe st.pipe (write_pipe p)
      else write_packet st.pipe p (s.write_addr destination)

  -- `if err != nil { return c.close(sessionID, err) }`.
  pub deliver : ℕ → Stream A → Bytes → A → Prog (Session A) (Unit {0})
  deliver id st p destination c =
      let to = if s.is_valid destination then destination else st.destination in
      elim (recv_to st p to c) [ ok x c' ↦ ok tt c' | err e c' ↦ close_stream id (some e) c' ]

  pub receive_data : ℕ → Option (Stream A) → A → ℕ → Prog (Session A) (Unit {0})
  receive_data id none destination len = zoom conn_lens (discard len)
  receive_data id (some st) destination len = do
    p ← zoom conn_lens (read_full len)
    deliver id st p destination

  receive_option : ℕ → Option (Stream A) → A → ℕ → Prog (Session A) (Unit {0})
  receive_option id st destination option =
      if bit_and option option_data == option_data
      then (do
        len ← zoom conn_lens read_u16
        if len == 0 then pure tt else receive_data id st destination len)
      else pure tt

  -- recv: one frame.
  pub recv : Prog (Session A) (Unit {0})
  unfolding read_metadata dispatch receive_option
  recv = do
    len ← zoom conn_lens read_u16
    id ← zoom conn_lens read_u16
    status ← zoom conn_lens read_byte
    option ← zoom conn_lens read_byte
    (network, destination) ← zoom conn_lens (read_metadata len)
    st ← dispatch id status option network destination
    receive_option id st destination option
