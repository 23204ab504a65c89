-- ===== src/Vmess/AlterIds.antt =====
-- The table of the legacy ids (service.go: UpdateUsers, generateLegacyKeys).
pub mod Window
pub mod Update
use sing_vmess.Base.{
  ℕ, zero, suc, ◌+◌, ◌-◌, ◌*◌, ◌/◌, ◌%◌, ◌^◌, ◌≤◌, ◌<◌, min, bit_and, bit_or, bit_xor, ◌≡◌, refl,
  sym, ap, ap₂, ◌∙◌, subst, ◌≢◌, ◌↔◌, ◌⊎◌, inl, inr, Bool, true, false, not, ◌&&◌, ◌||◌, Option,
  none, some, List, [], ◌∷◌, ◌++◌, map, append-nil, append_assoc, arith, ltb, leb, ◌==◌,
  if◌then◌else◌, lt→ltb, le→leb, ==_iff, Bool-cases, length, get_or, take, drop, replicate,
  length-append, take-append-drop, length-take, length-drop, length-replicate, take_all, drop_all,
  take_ge, drop_ge, All, concat, Error, eof, unexpected_eof, short_buffer, upstream,
  bad_length_chunk, invalid_checksum, open_failed, unexpected_frame_new, unexpected_frame,
  remote_closed, invalid_frame_length, bad_address, bad_network, bad_session_status, pipe_closed,
  unknown_version, unknown_header, overflow, invalid_header, unknown_command, blocked,
  fqdn_unsupported, empty_segment, segment_too_large, invalid_segment, Outcome, ok, err, Prog, pure,
  fail, state_of, and_then, ◌>>=◌, ◌>>◌, Lens, lift, zoom, gets, modify, bit_xor_cancel, bit_xor-lt,
  bit_xor-zero, unknown_uuid, udp_flow, flow_mismatch, unknown_flow, unknown_network, bad_request,
  replay, bad_timestamp, bad_checksum, bad_response, unknown_option, bad_security, ticket_expired,
  bad_padding, Bytes, IsByte, IsU16, put_u16, u16, put_u32, u16-put, short, read_full, discard,
  read_byte, read_u16, read_full-append, discard-append, read_full-short, length-read_full, Sink,
  write, open_sink, write_open, write_with,
}
use sing_vmess.Vmess.Service.{LegacyUser}
use sing_vmess.Vless.Service.Users.{look_up, same_bytes}

-- CacheDurationSeconds.
abbrev pub cache_duration : ℕ
cache_duration = 120

-- The parts of the service: the ids of each user, when the table was last made, and the table, the latest entry first.
pub record Table (U : Type 0) : Type 0 where
  pub alter_ids : List (U × List Bytes)
  pub alter_id_update_time : List (U × ℕ)
  pub alter_id_map : List (Bytes × LegacyUser U)

-- The chain of the ids of a user: `next` is AlterId.
pub chain : (Bytes → Bytes) → ℕ → Bytes → List Bytes
chain next zero current = []
chain next (suc n) current = next current ∷ chain next n (next current)

-- A map of Go gives zero for a key that is not there.
abbrev pub or_zero : Option ℕ → ℕ
or_zero none = 0
or_zero (some n) = n

-- `beginSec`: the last update, but not more than two minutes ago.
abbrev pub begin_of : ℕ → ℕ → ℕ
begin_of now last = if ltb last (now - cache_duration) then now - cache_duration else last

-- `id_hash` is the HMAC of the time under an id.
module _ {U : Type 0} (id_hash : Bytes → ℕ → Bytes) where
  -- The innermost loop, of `n` turns from the time `ts` on.
  unfoldable pub add_times :
      U → Bytes → ℕ → ℕ → ℕ → List (Bytes × LegacyUser U) → List (Bytes × LegacyUser U)
  add_times user id i ts zero m = m
  add_times user id i ts (suc n) m =
      add_times user id i (suc ts) n
        ((id_hash id ts, record { user = user; time = ts; index = i }) ∷ m)

  -- The loop over the ids of a user.
  unfoldable pub add_ids :
      U → ℕ → ℕ → ℕ → List Bytes → List (Bytes × LegacyUser U) → List (Bytes × LegacyUser U)
  unfolding add_times
  add_ids user i begin end [] m = m
  add_ids user i begin end (id ∷ ids) m =
      add_ids user (suc i) begin end ids (add_times user id i begin (suc end - begin) m)

  module _ (same : U → U → Bool) where
    -- The loop over the users.
    unfoldable pub add_users :
        ℕ
        → List (U × ℕ)
        → List (U × List Bytes)
        → List (Bytes × LegacyUser U)
        → List (Bytes × LegacyUser U)
    unfolding add_ids
    add_users now times [] m = m
    add_users now times ((user, ids) ∷ users) m =
        let begin = begin_of now (or_zero (look_up same times user)) in
        add_users now times users (add_ids user 0 begin (now + cache_duration) ids m)

    -- generateLegacyKeys at the time `now`.
    unfoldable pub generate_legacy_keys : ℕ → Table U → Table U
    unfolding add_users
    generate_legacy_keys now t = record {
      alter_ids = t.alter_ids;
      alter_id_update_time = map (λ u. (u.0, now)) t.alter_ids;
      alter_id_map = add_users now t.alter_id_update_time t.alter_ids [];
    }

    -- UpdateUsers, as far as the legacy ids go.
    pub update_users : ℕ → List (U × List Bytes) → Table U → Table U
    unfolding generate_legacy_keys
    update_users now users t =
        generate_legacy_keys now
          (record { alter_ids = users; alter_id_update_time = []; alter_id_map = t.alter_id_map })
