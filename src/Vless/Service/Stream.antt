-- ===== src/Vless/Service/Stream.antt =====
-- What a serverConn sends (vless/service.go: Write, WriteBuffer) is a response and then a plain stream, which the
-- client reads (vless/client.go: Read, ReadBuffer).
use sing_vmess.Base.{
  ◌≡◌, refl, ap, ◌∙◌, true, false, List, [], ◌∷◌, ◌++◌, map, append-nil, append_assoc, concat, ok,
  Prog, pure, ◌>>◌, Bytes, open_sink, write_open,
}
use sing_vmess.Vless.Request.{read_response, check_version}
use sing_vmess.Vless.Client.{Conn, read_conn, ensure_response}
use sing_vmess.Vless.Client.Stream.{Stream, idle, flowing, send_stream}
use sing_vmess.Vless.Service.{ServerConn, write_server, write_server_buffer}

pub data Reply : Type 0 where
  by_write by_buffer : Bytes → Reply

abbrev pub reply_bytes : Reply → Bytes
reply_bytes (by_write b) = b
reply_bytes (by_buffer b) = b

pub reply : Reply → Prog ServerConn (Unit {0})
reply (by_write b) = write_server b
reply (by_buffer b) = write_server_buffer b

pub replies : List Reply → Prog ServerConn (Unit {0})
replies [] = pure tt
replies (r ∷ rs) = reply r >> replies rs

-- The serverConn that stands for a stream, over a connection that takes every write.
abbrev pub server_view : Stream → ServerConn
server_view idle = record { response_written = false; sink = open_sink [] }
server_view (flowing p) = record { response_written = true; sink = open_sink (0 ∷ 0 ∷ p) }

reply-view :
    (r : Reply) (st : Stream)
    → reply r (server_view st) ≡ ok tt (server_view (send_stream (reply_bytes r) st))
unfolding reply write_server write_server_buffer
reply-view (by_write b) idle = rw (write_open [] (0 ∷ 0 ∷ b))
reply-view (by_write b) (flowing p) = rw (write_open (0 ∷ 0 ∷ p) b)
reply-view (by_buffer b) idle = rw (write_open [] (0 ∷ 0 ∷ b))
reply-view (by_buffer b) (flowing p) = rw (write_open (0 ∷ 0 ∷ p) b)

replies-view :
    (rs : List Reply) (p : Bytes)
    → replies rs (server_view (flowing p))
      ≡ ok tt (server_view (flowing (p ++ concat (map reply_bytes rs))))
unfolding replies
replies-view [] p = rw (append-nil p)
replies-view (r ∷ rs) p = rw (reply-view r (flowing p)) (
    replies-view rs (p ++ reply_bytes r)
    ∙ ap (λ q. ok tt (server_view (flowing q)))
        (append_assoc p (reply_bytes r) (concat (map reply_bytes rs))))

-- Whatever calls of Write and WriteBuffer begin a new serverConn, at least one, over a connection that takes
-- every write, the client's next Read or ReadBuffer on what was sent does what it would do if the response had been
-- read and only the payloads were there, joined.
pub read_conn-replies :
    {A : Type 0} (c : Conn A) (fetch : Prog Bytes Bytes) (first : Reply) (rs : List Reply)
    → c.response_read ≡ false
    → (out : Bytes) × (replies (first ∷ rs) (server_view idle)
        ≡ ok tt (record { response_written = true; sink = open_sink out }))
      × (read_conn fetch (record c { source = out })
          ≡ read_conn fetch
              (record c { source = concat (map reply_bytes (first ∷ rs)); response_read = true }))
unfolding read_conn ensure_response replies read_response check_version
read_conn-replies c fetch first rs e = (
  0 ∷ 0 ∷ concat (map reply_bytes (first ∷ rs)),
  rw (reply-view first idle) (replies-view rs (reply_bytes first)),
  rw e refl,
)
