-- ===== src/Vless/Vision/Writing.antt =====
-- VisionConn.Write (vless/vision.go). A vectorised write is a write of the buffers' bytes in their order;
-- the pause before the first direct bytes is left out.
use sing_vmess.Base.{
  ℕ, ◌+◌, Bool, true, false, not, ◌&&◌, List, [], ◌∷◌, ltb, leb, if◌then◌else◌, length, take, drop,
  concat, Prog, pure, state_of, ◌>>=◌, ◌>>◌, Lens, zoom, Bytes, Sink, write,
}
use sing_vmess.Vless.Vision.{starts, Padder, padding, reshape_buffer}
use sing_vmess.Vless.Vision.Filter.{Filter, filter_while}

-- Write's state: the encrypted connection `conn` and, below it, `net_conn`.
pub record VisionConn : Type 0 where
  pub filter : Filter
  pub padder : Padder
  pub is_padding : Bool
  pub direct_write : Bool
  pub conn : Sink
  pub net_conn : Sink

abbrev pub upper : Lens VisionConn Sink
upper = record { get = λ c. c.conn; put = λ c s. record c { conn = s } }

abbrev pub lower : Lens VisionConn Sink
lower = record { get = λ c. c.net_conn; put = λ c s. record c { net_conn = s } }

unfoldable pub write_some : Lens VisionConn Sink → List Bytes → Prog VisionConn (Unit {0})
write_some l [] = pure tt
write_some l (b ∷ bs) = zoom l (write (concat (b ∷ bs)))

unfoldable pub write_padded : (List Bytes × ℕ) → Prog VisionConn (Unit {0})
write_padded padded c =
    if c.direct_write
    then ((zoom upper (write (concat (take (padded.1 + 1) padded.0)))
          >> write_some lower (drop (padded.1 + 1) padded.0))
        c)
    else write_some upper padded.0 c

-- What NewVisionConn makes of a user's id and the two connections, before any number is drawn.
unfoldable pub new_vision_conn : Bytes → Sink → Sink → VisionConn
new_vision_conn user_uuid conn net_conn = record {
  filter = record {
    is_tls = false;
    packets_to_filter = 8;
    is_tls12_or_above = false;
    remaining_server_hello = 0;
    cipher = 0;
    enable_xtls = false;
  };
  padder = record { user_uuid = user_uuid; write_uuid = true; is_tls = false; drawn = 0 };
  is_padding = true;
  direct_write = false;
  conn = conn;
  net_conn = net_conn;
}

-- A Write, or the filterTLS of a Read. Read takes no lock, so that the two may overlap in the code; here
-- one is over when the next begins.
pub data Event : Type 0 where
  wrote : Bytes → Event
  received : List Bytes → Event

module _ (entropy : ℕ → ℕ → ℕ) (filler : ℕ → Bytes) where
  -- Write's call of padding, which reads the isTLS that filterTLS sets.
  unfoldable pub pad : Bytes → ℕ → VisionConn → Bytes × VisionConn
  pad b command c =
      let padded =
        padding entropy filler b command (record (c.padder) { is_tls = c.filter.is_tls }) in
      (padded.0, record c { padder = padded.1 })

  -- The loop on the buffers from index `i` on: the buffers and specIndex.
  unfoldable pub pad_buffers : ℕ → List Bytes → VisionConn → (List Bytes × ℕ) × VisionConn
  pad_buffers i [] c = (([], 0), c)
  pad_buffers i (b ∷ bs) c =
      let on = pad b 0 c in
      let later = pad_buffers (i + 1) bs on.1 in
      let end = pad b 1 (record c { is_padding = false }) in
      let direct = pad b 2 (record c { is_padding = false; direct_write = true }) in
      if c.filter.is_tls && (ltb 6 (length b) && starts b)
      then (if c.filter.enable_xtls
          then ((direct.0 ∷ bs, i), direct.1)
          else ((end.0 ∷ bs, 0), end.1))
      else if not c.filter.is_tls12_or_above && leb c.filter.packets_to_filter 1
      then ((end.0 ∷ bs, 0), end.1)
      else ((on.0 ∷ later.0.0, later.0.1), later.1)

  unfoldable pub write_filtered : Bytes → Prog VisionConn ℕ
  write_filtered p c =
      let padded = pad_buffers 0 (reshape_buffer (length p) p) c in
      if c.is_padding
      then ((write_padded padded.0 >>= λ _. pure (length p)) padded.1)
      else if c.direct_write
      then ((zoom lower (write p) >>= λ _. pure (length p)) c)
      else (zoom upper (write p) >>= λ _. pure (length p)) c

  -- Write.
  unfoldable pub write_conn : Bytes → Prog VisionConn ℕ
  write_conn p c = write_filtered p (record c { filter = filter_while (p ∷ []) c.filter })

  unfoldable pub step : Event → VisionConn → VisionConn
  step (wrote p) c = state_of (write_conn p c)
  step (received bs) c = record c { filter = filter_while bs c.filter }

  unfoldable pub run : List Event → VisionConn → VisionConn
  run [] c = c
  run (e ∷ es) c = run es (step e c)
