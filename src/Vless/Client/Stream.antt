-- ===== src/Vless/Client/Stream.antt =====
-- What a Conn of the client sends (vless/client.go: Write, WriteBuffer) is a request and then a plain stream.
use sing_vmess.Base.{
  ℕ, ◌<◌, ◌≡◌, refl, ap, ◌∙◌, true, false, none, some, List, [], ◌∷◌, ◌++◌, map, append-nil,
  append_assoc, arith, leb, ◌==◌, if◌then◌else◌, le→leb, length, drop, drop_ge, All, concat,
  bad_address, Outcome, ok, err, Prog, pure, ◌>>◌, Bytes, open_sink, write_open,
}
use sing_vmess.Address.{Serializer, IsSerializer}
use sing_vmess.Vless.Request.{
  Request, command_mux, put_uvarint, addons_len, encode_request, request_len, send_buffer,
  write_request, read_request,
}
use sing_vmess.Vless.Request.RoundTrip.{read_request-encode, write_request-read_request}
use sing_vmess.Vless.Client.{Conn, new_conn, write_conn, send_headed, write_buffer}

-- The calls that send, and the room that a buffer has before its bytes.
pub data Call : Type 0 where
  by_write : Bytes → Call
  by_buffer : Bytes → Bytes → Call

abbrev pub payload : Call → Bytes
payload (by_write b) = b
payload (by_buffer room b) = b

-- A buffer has the headroom that FrontHeadroom asks for.
abbrev pub HasRoom : ℕ → Call → Type 0
HasRoom n (by_write b) = Unit {0}
HasRoom n (by_buffer room b) = length room ≡ n

-- What the code promises: a stream, of which it matters whether it has begun.
pub data Stream : Type 0 where
  idle : Stream
  flowing : Bytes → Stream

abbrev pub send_stream : Bytes → Stream → Stream
send_stream b idle = flowing b
send_stream b (flowing p) = flowing (p ++ b)

pub stream_of : List Call → Stream → Stream
stream_of [] st = st
stream_of (c ∷ cs) st = stream_of cs (send_stream (payload c) st)

-- The connection that stands for a stream behind the header `h`.
abbrev pub view : {A : Type 0} → Request A → Bytes → Bytes → Stream → Conn A
view r h source idle = new_conn r (open_sink []) source
view r h source (flowing p) = record {
  request = r;
  request_written = true;
  response_read = false;
  sink = open_sink (h ++ p);
  source = source;
}

abbrev quiet : {A : Type 0} → Outcome (Conn A) ℕ → Outcome (Conn A) (Unit {0})
quiet (ok n c) = ok tt c
quiet (err e c) = err e c

module _ {A : Type 0} (s : Serializer A) (uvarint_len : ℕ → ℕ) where
  unfoldable pub send : Call → Prog (Conn A) (Unit {0})
  send (by_write b) c = quiet (write_conn s uvarint_len b c)
  send (by_buffer room b) c = write_buffer s uvarint_len room b c

  pub sends : List Call → Prog (Conn A) (Unit {0})
  sends [] = pure tt
  sends (c ∷ cs) = send c >> sends cs

module _ {A : Type 0} (s : Serializer A) (laws : IsSerializer s) (uvarint_len : ℕ → ℕ)
    (uvarint : (n : ℕ) → uvarint_len n ≡ length (put_uvarint 10 n)) where
  send-view :
      (r : Request A) (h source : Bytes) (call : Call) (st : Stream)
      → length r.uuid ≡ 16
      → addons_len s uvarint_len r < 256
      → encode_request s uvarint_len r ≡ some h
      → HasRoom (request_len s uvarint_len r) call
      → send s uvarint_len call (view r h source st)
        ≡ ok tt (view r h source (send_stream (payload call) st))
  unfolding send write_conn write_buffer send_headed
  send-view r h source (by_write b) (flowing p) hu ha e room =
      rw (write_open (h ++ p) b, append_assoc h p b)
  send-view r h source (by_write b) idle hu ha e room =
      let (w, back) = write_request-read_request s laws uvarint_len uvarint r h b [] hu ha e in rw w
  send-view r h source (by_buffer room b) (flowing p) hu ha e size =
      rw (write_open (h ++ p) b, append_assoc h p b)
  send-view r h source (by_buffer room b) idle hu ha e size =
      let (back, len) = read_request-encode s laws uvarint_len uvarint r h [] hu ha e in
      let fits : leb (length h) (length room) ≡ true = le→leb _ _ (omega arith) in
      let none_left : drop (length h) room ≡ [] = drop_ge (length h) room (omega arith) in
      rw (e, fits, none_left, append-nil h, write_open [] (h ++ b))

  -- A Conn refines a stream: calls of Write and WriteBuffer in any order and of any payloads, empty ones
  -- included, succeed on a connection that takes every write, and leave the Conn that stands for the stream
  -- with the same payloads sent. It has sent nothing before the first call, and afterwards the request
  -- once and then the payloads. It is assumed that the request encodes, with sixteen bytes of id and addons
  -- shorter than 256 bytes, and that the buffers have the headroom that RequestLen says.
  pub sends-view :
      (r : Request A) (h source : Bytes) (calls : List Call) (st : Stream)
      → length r.uuid ≡ 16
      → addons_len s uvarint_len r < 256
      → encode_request s uvarint_len r ≡ some h
      → All (HasRoom (request_len s uvarint_len r)) calls
      → sends s uvarint_len calls (view r h source st)
        ≡ ok tt (view r h source (stream_of calls st))
  unfolding sends stream_of
  sends-view r h source [] st hu ha e room = refl
  sends-view r h source (c ∷ cs) st hu ha e (room, rooms) =
      rw (send-view r h source c st hu ha e room)
        (sends-view r h source cs (send_stream (payload c) st) hu ha e rooms)

stream_of-flowing :
    (calls : List Call) (p : Bytes)
    → stream_of calls (flowing p) ≡ flowing (p ++ concat (map payload calls))
unfolding stream_of
stream_of-flowing [] p = rw (append-nil p)
stream_of-flowing (c ∷ cs) p =
    stream_of-flowing cs (p ++ payload c)
    ∙ ap (λ q. flowing q) (append_assoc p (payload c) (concat (map payload cs)))

module _ {A : Type 0} (s : Serializer A) (laws : IsSerializer s) (uvarint_len : ℕ → ℕ)
    (uvarint : (n : ℕ) → uvarint_len n ≡ length (put_uvarint 10 n)) where
  -- Whatever calls of Write and WriteBuffer begin a new Conn, at least one, the server's ReadRequest finds the
  -- request in what was sent, without the destination if it is one of the multiplexer, and is left with the
  -- payloads joined. It is assumed that the request encodes, with sixteen bytes of id and addons
  -- shorter than 256 bytes, and that the buffers have the headroom that RequestLen says.
  pub read_request-sends :
      (r : Request A) (h source : Bytes) (first : Call) (calls : List Call)
      → length r.uuid ≡ 16
      → addons_len s uvarint_len r < 256
      → encode_request s uvarint_len r ≡ some h
      → All (HasRoom (request_len s uvarint_len r)) (first ∷ calls)
      → (out : Bytes) × (sends s uvarint_len (first ∷ calls) (new_conn r (open_sink []) source)
          ≡ ok tt (record (new_conn r (open_sink out) source) { request_written = true }))
        × (read_request s out
            ≡ ok
                (record r {
                  destination = if r.command == command_mux then s.empty else r.destination;
                })
                (concat (map payload (first ∷ calls))))
  read_request-sends r h source first calls hu ha e rooms =
      let p = concat (map payload (first ∷ calls)) in
      let (back, len) = read_request-encode s laws uvarint_len uvarint r h p hu ha e in
      let sent =
        sends-view s laws uvarint_len uvarint r h source (first ∷ calls) idle hu ha e rooms in
      let all : stream_of (first ∷ calls) idle ≡ flowing p =
        unfold stream_of in stream_of-flowing calls (payload first) in
      (h ++ p, sent ∙ ap (λ st. ok tt (view r h source st)) all, back)

module _ {A : Type 0} (s : Serializer A) (uvarint_len : ℕ → ℕ) where
  -- If the request cannot be encoded, a new Conn reports it from Write and from WriteBuffer. But after
  -- WriteBuffer it is as it was, while after Write it takes the request for written: the next Write
  -- succeeds and sends the bare payload.
  pub write_conn_unencoded :
      (r : Request A) (source b later room : Bytes)
      → encode_request s uvarint_len r ≡ none
      → (write_conn s uvarint_len b (new_conn r (open_sink []) source)
          ≡ err bad_address (record (new_conn r (open_sink []) source) { request_written = true }))
        × (write_conn s uvarint_len later
              (record (new_conn r (open_sink []) source) { request_written = true })
            ≡ ok
                (length later)
                (record (new_conn r (open_sink later) source) { request_written = true }))
        × (write_buffer s uvarint_len room b (new_conn r (open_sink []) source)
            ≡ err bad_address (new_conn r (open_sink []) source))
  unfolding write_conn write_buffer send_headed write_request send_buffer
  write_conn_unencoded r source b later room e = (rw e, rw (write_open [] later), rw e)
