-- ===== src/Encryption/Sessions.antt =====
-- The tickets of the service (vless/encryption/service.go: loopCleanLegacySessions, and Handshake where it takes a ticket
-- and where it gives one).
pub mod Used
pub mod Replay
use sing_vmess.Base.{
  ℕ, zero, suc, ◌+◌, ◌-◌, ◌*◌, ◌/◌, ◌%◌, ◌^◌, ◌≤◌, ◌<◌, min, bit_and, bit_or, bit_xor, ◌≡◌, refl,
  sym, ap, ap₂, ◌∙◌, subst, ◌≢◌, ◌↔◌, ◌⊎◌, inl, inr, Bool, true, false, not, ◌&&◌, ◌||◌, Option,
  none, some, List, [], ◌∷◌, ◌++◌, map, append-nil, append_assoc, arith, ltb, leb, ◌==◌,
  if◌then◌else◌, lt→ltb, le→leb, ==_iff, Bool-cases, length, get_or, take, drop, replicate,
  length-append, take-append-drop, length-take, length-drop, length-replicate, take_all, drop_all,
  take_ge, drop_ge, All, concat, Error, eof, unexpected_eof, short_buffer, upstream,
  bad_length_chunk, invalid_checksum, open_failed, unexpected_frame_new, unexpected_frame,
  remote_closed, invalid_frame_length, bad_address, bad_network, bad_session_status, pipe_closed,
  unknown_version, unknown_header, overflow, invalid_header, unknown_command, blocked,
  fqdn_unsupported, empty_segment, segment_too_large, invalid_segment, Outcome, ok, err, Prog, pure,
  fail, state_of, and_then, ◌>>=◌, ◌>>◌, Lens, lift, zoom, gets, modify, bit_xor_cancel, bit_xor-lt,
  bit_xor-zero, unknown_uuid, udp_flow, flow_mismatch, unknown_flow, unknown_network, bad_request,
  replay, bad_timestamp, bad_checksum, bad_response, unknown_option, bad_security, ticket_expired,
  bad_padding, Bytes, IsByte, IsU16, put_u16, u16, put_u32, u16-put, short, read_full, discard,
  read_byte, read_u16, read_full-append, discard-append, read_full-short, length-read_full, Sink,
  write, open_sink, write_open, write_with,
}
use sing_vmess.Vless.Service.Users.{look_up, same_bytes}

-- ServiceSession: the key of the first handshake, and the keys that have come back with its ticket.
pub record ServiceSession : Type 0 where
  pub pfs_key : Bytes
  pub nfs_keys : List Bytes

-- The fields of Service that sessionAccess guards. The latest entry of a map comes first, and a deleted key has none.
pub record Sessions : Type 0 where
  pub lasts : List (ℕ × Bytes)
  pub tickets : List Bytes
  pub sessions : List (Bytes × ServiceSession)

-- delete of a map, for any comparison of keys.
unfoldable pub delete : {K : Type 0} {V : Type 0} → (K → K → Bool) → K → List (K × V) → List (K × V)
delete same k [] = []
delete same k (e ∷ es) = let rest = delete same k es in if same e.0 k then rest else e ∷ rest

-- The loop over the tickets, up to the last one: what is left of the tickets if it is found, and the sessions.
unfoldable pub drop_through :
    Bytes
    → List Bytes
    → List (Bytes × ServiceSession)
    → Option (List Bytes) × List (Bytes × ServiceSession)
unfolding delete
drop_through last [] sessions = (none, sessions)
drop_through last (ticket ∷ tickets) sessions =
    let left = delete same_bytes ticket sessions in
    let rest = drop_through last tickets left in
    if same_bytes ticket last then (some tickets, left) else rest

abbrev pub or_all : List Bytes → Option (List Bytes) → List Bytes
or_all all none = all
or_all all (some left) = left

abbrev pub without : Option Bytes → Sessions → Sessions
without none s = s
without (some last) s =
    let dropped = drop_through last s.tickets s.sessions in
    record s { tickets = or_all s.tickets dropped.0; sessions = dropped.1 }

-- A turn of loopCleanLegacySessions at the time `now`.
unfoldable pub clean : ℕ → Sessions → Sessions
unfolding drop_through
clean now s =
    let minute = now / 60 in
    without (look_up ◌==◌ s.lasts minute)
      (record s { lasts = delete ◌==◌ (minute - 1) (delete ◌==◌ minute s.lasts) })

-- What Handshake keeps of a ticket that it gives, of `seconds` to live; `longest` is the greater of secondsFrom and
-- secondsTo.
unfoldable pub give_ticket : ℕ → ℕ → ℕ → Bytes → Bytes → Sessions → Sessions
give_ticket now longest seconds ticket pfs_key s =
    if ltb 0 seconds
    then record {
      lasts = ((now + longest) / 60 + 2, ticket) ∷ s.lasts;
      tickets = s.tickets ++ (ticket ∷ []);
      sessions = (ticket, record { pfs_key = pfs_key; nfs_keys = [] }) ∷ s.sessions;
    }
    else s

unfoldable pub member : Bytes → List Bytes → Bool
member k [] = false
member k (x ∷ xs) = same_bytes x k || member k xs

-- The united key of a session that is found, unless the key has come before.
unfoldable pub use_session : Bytes → Bytes → Option ServiceSession → Prog Sessions Bytes
unfolding member
use_session ticket nfs_key none s = err ticket_expired s
use_session ticket nfs_key (some session) s =
    if member nfs_key session.nfs_keys
    then err replay s
    else ok (session.pfs_key ++ nfs_key) (record s {
      sessions = (ticket, record session { nfs_keys = nfs_key ∷ session.nfs_keys }) ∷ s.sessions;
    })

-- What Handshake does with a ticket that comes back, and the key of that connection.
unfoldable pub take_ticket : Bytes → Bytes → Prog Sessions Bytes
unfolding use_session
take_ticket ticket nfs_key s = use_session ticket nfs_key (look_up same_bytes s.sessions ticket) s
