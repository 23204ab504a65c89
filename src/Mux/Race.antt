-- ===== src/Mux/Race.antt =====
-- The writers of the server's session (mux.go: syncWrite, syncWritePacket, syncClose). Each takes a ticket
-- from the atomic counter writeRace, then the mutex, and under the mutex it writes its frame to the
-- session's std_bufio.Writer, in several writes, and flushes it if no later ticket has been taken.
pub mod Flushing
use sing_vmess.Base.{
  ℕ, zero, suc, ◌+◌, ◌-◌, ◌*◌, ◌/◌, ◌%◌, ◌^◌, ◌≤◌, ◌<◌, min, bit_and, bit_or, bit_xor, ◌≡◌, refl,
  sym, ap, ap₂, ◌∙◌, subst, ◌≢◌, ◌↔◌, ◌⊎◌, inl, inr, Bool, true, false, not, ◌&&◌, ◌||◌, Option,
  none, some, List, [], ◌∷◌, ◌++◌, map, append-nil, append_assoc, arith, ltb, leb, ◌==◌,
  if◌then◌else◌, lt→ltb, le→leb, ==_iff, Bool-cases, length, get_or, take, drop, replicate,
  length-append, take-append-drop, length-take, length-drop, length-replicate, take_all, drop_all,
  take_ge, drop_ge, All, concat, Error, eof, unexpected_eof, short_buffer, upstream,
  bad_length_chunk, invalid_checksum, open_failed, unexpected_frame_new, unexpected_frame,
  remote_closed, invalid_frame_length, bad_address, bad_network, bad_session_status, pipe_closed,
  unknown_version, unknown_header, overflow, invalid_header, unknown_command, blocked,
  fqdn_unsupported, empty_segment, segment_too_large, invalid_segment, Outcome, ok, err, Prog, pure,
  fail, ok-ne-err, ok-injective, ok-state, some-injective, some-ne-none, state_of, and_then, ◌>>=◌,
  ◌>>◌, Lens, lift, zoom, gets, modify, bit_xor_cancel, bit_xor-lt, bit_xor-zero, unknown_uuid,
  udp_flow, flow_mismatch, unknown_flow, unknown_network, bad_request, replay, bad_timestamp,
  bad_checksum, bad_response, unknown_option, bad_security, ticket_expired, bad_padding, Bytes,
  IsByte, IsU16, put_u16, u16, put_u32, u16-put, short, read_full, discard, read_byte, read_u16,
  read_full-append, discard-append, read_full-short, length-read_full, Sink, write, open_sink,
  write_open, write_with,
}

-- The size of the buffer of std_bufio.NewWriter.
abbrev pub buffer_size : ℕ
buffer_size = 4096

-- A std_bufio.Writer: what it holds, and whether it keeps an error of the connection, which each later
-- call of it reports.
pub record BufWriter : Type 0 where
  pub buffered : Bytes
  pub failed : Bool
  pub conn : Sink

-- What a Flush leaves. With an error it keeps what the connection did not take.
unfoldable pub flushed : Bytes → BufWriter → Outcome Sink (Unit {0}) → BufWriter
flushed held w (ok a s) = record w { buffered = []; conn = s }
flushed held w (err e s) = record w {
  buffered = drop (length s.sent - length w.conn.sent) held;
  failed = true;
  conn = s;
}

unfoldable pub flush_held : Bytes → BufWriter → BufWriter
flush_held [] w = w
flush_held (b ∷ bs) w = flushed (b ∷ bs) w (write (b ∷ bs) w.conn)

-- Flush.
unfoldable pub flush : BufWriter → BufWriter
flush w = if w.failed then w else flush_held w.buffered w

-- A write past the empty buffer.
unfoldable pub passed : BufWriter → Outcome Sink (Unit {0}) → BufWriter
passed w (ok a s) = record w { conn = s }
passed w (err e s) = record w { failed = true; conn = s }

-- The rest of a write, behind a buffer that was filled and flushed.
unfoldable pub spill : Bytes → BufWriter → BufWriter
spill p w =
    if w.failed
    then w
    else if leb (length p) buffer_size
    then record w { buffered = w.buffered ++ p }
    else passed w (write p w.conn)

-- A write that is longer than what is free.
unfoldable pub overrun : Bytes → Bytes → BufWriter → BufWriter
overrun [] p w = passed w (write p w.conn)
overrun (b ∷ bs) p w =
    let free = buffer_size - length w.buffered in
    spill (drop free p) (flush (record w { buffered = w.buffered ++ take free p }))

-- Write of the std_bufio.Writer.
unfoldable pub store : Bytes → BufWriter → BufWriter
store p w =
    if w.failed
    then w
    else if leb (length p) (buffer_size - length w.buffered)
    then record w { buffered = w.buffered ++ p }
    else overrun w.buffered p w

-- The writes that make a frame.
unfoldable pub store_all : List Bytes → BufWriter → BufWriter
store_all [] w = w
store_all (p ∷ ps) w = store_all ps (store p w)

-- `waiting` holds the writers between the counter and the mutex, with their tickets and frames, in the
-- order of their arrival; a frame is the list of the writes that make it.
pub record Writers : Type 0 where
  pub race : ℕ
  pub waiting : List (ℕ × List Bytes)
  pub writer : BufWriter

-- `writeRace := atomic.AddUint32(&c.writeRace, 1)`.
unfoldable pub arrive : List Bytes → Writers → Writers
arrive frame w =
    let ticket = (w.race + 1) % 2 ^ 32 in
    record w { race = ticket; waiting = w.waiting ++ ((ticket, frame) ∷ []) }

-- What a writer does behind the writes of its frame: it returns early where they failed.
unfoldable pub settle : ℕ → BufWriter → Writers → Writers
settle ticket written w =
    if written.failed
    then record w { writer = written }
    else if ticket == w.race
    then record w { writer = flush written }
    else record w { writer = written }

-- What a writer does with the mutex.
unfoldable pub locked_write : ℕ → List Bytes → Writers → Writers
locked_write ticket frame w = settle ticket (store_all frame w.writer) w

unfoldable pub remove_at : ℕ → List (ℕ × List Bytes) → List (ℕ × List Bytes)
remove_at n [] = []
remove_at zero (x ∷ xs) = xs
remove_at (suc n) (x ∷ xs) = x ∷ remove_at n xs

unfoldable pub nth : ℕ → List (ℕ × List Bytes) → Option (ℕ × List Bytes)
nth n [] = none
nth zero (x ∷ xs) = some x
nth (suc n) (x ∷ xs) = nth n xs

unfoldable pub enter_as : ℕ → Option (ℕ × List Bytes) → Writers → Writers
enter_as k none w = w
enter_as k (some (ticket, frame)) w =
    locked_write ticket frame (record w { waiting = remove_at k w.waiting })

-- The waiting writer number `k` gets the mutex.
unfoldable pub enter : ℕ → Writers → Writers
enter k w = enter_as k (nth k w.waiting) w

pub data Event : Type 0 where
  arrives : List Bytes → Event
  enters : ℕ → Event

unfoldable pub step : Event → Writers → Writers
step (arrives frame) w = arrive frame w
step (enters k) w = enter k w

unfoldable pub run : List Event → Writers → Writers
run [] w = w
run (e ∷ es) w = run es (step e w)
