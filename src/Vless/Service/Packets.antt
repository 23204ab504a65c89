-- ===== src/Vless/Service/Packets.antt =====
-- The packets of a serverPacketConn (vless/service.go: WriteTo, WritePacket), and the client's reading of them
-- (vless/client.go: PacketConn.Read).
use sing_vmess.Base.{
  ℕ, zero, suc, ◌≤◌, ◌≡◌, refl, ap, ◌∙◌, true, false, List, [], ◌∷◌, ◌++◌, map, append-nil,
  append_assoc, length, All, ok, Prog, pure, ◌>>=◌, ◌>>◌, Bytes, IsU16, put_u16, open_sink,
  write_open,
}
use sing_vmess.Vless.Request.{read_response, check_version}
use sing_vmess.Vless.Request.Packets.{packets, packets-snoc, take_packet-append}
use sing_vmess.Vless.Client.{PacketConn, read_packet, ensure_packet_response}
use sing_vmess.Vless.Service.{ServerConn, ensure_response, write_to, write_packet}

pub data PacketReply : Type 0 where
  by_write_to by_write_packet : Bytes → PacketReply

abbrev pub packet_of : PacketReply → Bytes
packet_of (by_write_to p) = p
packet_of (by_write_packet p) = p

pub reply : PacketReply → Prog ServerConn (Unit {0})
reply (by_write_to p) = write_to p
reply (by_write_packet p) = write_packet p

pub replies : List PacketReply → Prog ServerConn (Unit {0})
replies [] = pure tt
replies (r ∷ rs) = reply r >> replies rs

abbrev answered : List Bytes → ServerConn
answered ps = record { response_written = true; sink = open_sink (0 ∷ 0 ∷ packets ps) }

abbrev pub new_server : ServerConn
new_server = record { response_written = false; sink = open_sink [] }

reply-first : (r : PacketReply) → reply r new_server ≡ ok tt (answered (packet_of r ∷ []))
unfolding reply write_to write_packet ensure_response packets
reply-first (by_write_to p) = rw (
  write_open [] (0 ∷ 0 ∷ []),
  write_open (0 ∷ 0 ∷ []) (put_u16 (length p)),
  write_open ((0 ∷ 0 ∷ []) ++ put_u16 (length p)) p,
  append-nil p,
)
reply-first (by_write_packet p) =
    rw (write_open [] (0 ∷ 0 ∷ []), write_open (0 ∷ 0 ∷ []) (put_u16 (length p) ++ p), append-nil p)

reply-next :
    (r : PacketReply) (ps : List Bytes)
    → reply r (answered ps) ≡ ok tt (answered (ps ++ (packet_of r ∷ [])))
unfolding reply write_to write_packet ensure_response
reply-next (by_write_to p) ps =
    let sent = 0 ∷ 0 ∷ packets ps in
    rw
      (
        write_open sent (put_u16 (length p)),
        write_open (sent ++ put_u16 (length p)) p,
        packets-snoc ps p,
      )
      (ap (λ b. ok tt (record { response_written = true; sink = open_sink (0 ∷ 0 ∷ b) }))
        (append_assoc (packets ps) (put_u16 (length p)) p))
reply-next (by_write_packet p) ps =
    rw (write_open (0 ∷ 0 ∷ packets ps) (put_u16 (length p) ++ p), packets-snoc ps p)

replies-next :
    (rs : List PacketReply) (ps : List Bytes)
    → replies rs (answered ps) ≡ ok tt (answered (ps ++ map packet_of rs))
unfolding replies
replies-next [] ps = rw (append-nil ps)
replies-next (r ∷ rs) ps = rw (reply-next r ps) (
    replies-next rs (ps ++ (packet_of r ∷ []))
    ∙ ap (λ q. ok tt (answered q)) (append_assoc ps (packet_of r ∷ []) (map packet_of rs)))

-- `n` times PacketConn.Read into slices of `size` bytes.
pub reads : {A : Type 0} → (size n : ℕ) → Prog (PacketConn A) (List Bytes)
reads size zero = pure []
reads size (suc n) = do p ← read_packet size; ps ← reads size n; pure (p ∷ ps)

reads-packets :
    {A : Type 0} (c : PacketConn A) (ps : List Bytes) (size : ℕ)
    → All (λ q. IsU16 (length q) × (length q ≤ size)) ps
    → reads size (length ps) (record c { response_read = true; source = packets ps })
      ≡ ok ps (record c { response_read = true; source = [] })
unfolding reads read_packet ensure_packet_response packets
reads-packets c [] size small = refl
reads-packets c (p ∷ ps) size ((h, fits), small) =
    rw (take_packet-append p (packets ps) size h fits, reads-packets c ps size small)

-- The packets of at most 65535 bytes that WriteTo and WritePacket of a new serverPacketConn send, in any mixture and
-- at least one, over a connection that takes every write, come out of the client's Read one by one and in order, into
-- slices that hold them. The client's first Read takes the response off as well.
pub reads-replies :
    {A : Type 0} (c : PacketConn A) (first : PacketReply) (rs : List PacketReply) (size : ℕ)
    → c.response_read ≡ false
    → All (λ q. IsU16 (length q) × (length q ≤ size)) (map packet_of (first ∷ rs))
    → (out : Bytes) × (replies (first ∷ rs) new_server
        ≡ ok tt (record { response_written = true; sink = open_sink out }))
      × (reads size (length (map packet_of (first ∷ rs))) (record c { source = out })
          ≡ ok (map packet_of (first ∷ rs)) (record c { response_read = true; source = [] }))
unfolding replies reads read_packet ensure_packet_response packets read_response check_version
reads-replies c first rs size e ((h, fits), small) =
    let ps = map packet_of rs in
    let p = packet_of first in
    (
      0 ∷ 0 ∷ packets (p ∷ ps),
      rw (reply-first first) (replies-next rs (p ∷ [])),
      rw (e, take_packet-append p (packets ps) size h fits, reads-packets c ps size small),
    )
