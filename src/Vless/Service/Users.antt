-- ===== src/Vless/Service/Users.antt =====
-- The users of a service, and what becomes of a request (vless/service.go: UpdateUsers, NewConnection).
pub mod Lookup
use sing_vmess.Base.{
  ℕ, zero, suc, ◌+◌, ◌-◌, ◌*◌, ◌/◌, ◌%◌, ◌^◌, ◌≤◌, ◌<◌, min, bit_and, bit_or, bit_xor, ◌≡◌, refl,
  sym, ap, ap₂, ◌∙◌, subst, ◌≢◌, ◌↔◌, ◌⊎◌, inl, inr, Bool, true, false, not, ◌&&◌, ◌||◌, Option,
  none, some, List, [], ◌∷◌, ◌++◌, map, append-nil, append_assoc, arith, ltb, leb, ◌==◌,
  if◌then◌else◌, lt→ltb, le→leb, ==_iff, Bool-cases, length, get_or, take, drop, replicate,
  length-append, take-append-drop, length-take, length-drop, length-replicate, take_all, drop_all,
  take_ge, drop_ge, All, concat, Error, eof, unexpected_eof, short_buffer, upstream,
  bad_length_chunk, invalid_checksum, open_failed, unexpected_frame_new, unexpected_frame,
  remote_closed, invalid_frame_length, bad_address, bad_network, bad_session_status, pipe_closed,
  unknown_version, unknown_header, overflow, invalid_header, unknown_command, blocked,
  fqdn_unsupported, empty_segment, segment_too_large, invalid_segment, Outcome, ok, err, Prog, pure,
  fail, state_of, and_then, ◌>>=◌, ◌>>◌, Lens, lift, zoom, gets, modify, bit_xor_cancel, bit_xor-lt,
  bit_xor-zero, unknown_uuid, udp_flow, flow_mismatch, unknown_flow, unknown_network, bad_request,
  replay, bad_timestamp, bad_checksum, bad_response, unknown_option, bad_security, ticket_expired,
  bad_padding, Bytes, IsByte, IsU16, put_u16, u16, put_u32, u16-put, short, read_full, discard,
  read_byte, read_u16, read_full-append, discard-append, read_full-short, length-read_full, Sink,
  write, open_sink, write_open, write_with,
}
use sing_vmess.Address.{Serializer}
use sing_vmess.Vless.Request.{Request, command_udp, command_mux, read_request}
use sing_vmess.Vless.Client.{command_tcp}

-- A map of Go as its entries, the latest first; `same` compares keys.
module _ {K : Type 0} {V : Type 0} (same : K → K → Bool) where
  unfoldable pub look_up : List (K × V) → K → Option V
  look_up [] k = none
  look_up ((k', v) ∷ kvs) k = if same k' k then some v else look_up kvs k

-- The parts of Service that UpdateUsers sets.
pub record Service (T : Type 0) : Type 0 where
  pub user_map : List (Bytes × T)
  pub user_flow : List (T × Bytes)

-- An entry of the three lists, at the same index.
pub record Entry (T : Type 0) : Type 0 where
  pub name : T
  pub id : Bytes
  pub flow : Bytes

-- The maps behind the entries of the lists so far. `user_id` is uuid.FromString, or uuid.NewV5 for a text that is no uuid.
unfoldable pub add_users : {T : Type 0} → (Bytes → Bytes) → List (Entry T) → Service T → Service T
add_users user_id [] s = s
add_users user_id (e ∷ es) s = add_users user_id es (record {
  user_map = (user_id e.id, e.name) ∷ s.user_map;
  user_flow = (e.name, e.flow) ∷ s.user_flow;
})

-- UpdateUsers: the maps are new, whatever the service had.
unfoldable pub update_users :
    {T : Type 0} → (Bytes → Bytes) → List (Entry T) → Service T → Service T
update_users user_id es s = add_users user_id es (record { user_map = []; user_flow = [] })

-- The text of FlowVision.
abbrev pub flow_vision : Bytes
flow_vision =
    120 ∷ 116 ∷ 108 ∷ 115 ∷ 45 ∷ 114 ∷ 112 ∷ 114 ∷ 120 ∷ 45 ∷ 118 ∷ 105 ∷ 115 ∷ 105 ∷ 111 ∷ 110 ∷ []

unfoldable pub same_bytes : Bytes → Bytes → Bool
same_bytes [] [] = true
same_bytes [] (y ∷ ys) = false
same_bytes (x ∷ xs) [] = false
same_bytes (x ∷ xs) (y ∷ ys) = x == y && same_bytes xs ys

-- What the handler gets: packets, a stream, or the frames of the multiplexer; the connection is wrapped in a
-- VisionConn or not.
pub data Handed (A T : Type 0) : Type 0 where
  to_packets : T → A → Handed A T
  to_stream : Bool → T → A → Handed A T
  to_mux : Bool → T → Handed A T

module _ {A T : Type 0} (s : Serializer A) (same : T → T → Bool) where
  -- A map gives the zero value for a key that is not there.
  abbrev flow_or_empty : Option Bytes → Bytes
  flow_or_empty none = []
  flow_or_empty (some f) = f

  -- The flow of a user, `s.userFlow[user]`.
  unfoldable pub flow_of_user : Service T → T → Bytes
  flow_of_user v user = flow_or_empty (look_up same v.user_flow user)

  -- The end of NewConnection: the command chooses the handler.
  unfoldable pub hand_over : Bool → T → Request A → Prog Bytes (Handed A T)
  hand_over vision user r =
      if r.command == command_tcp
      then pure (to_stream vision user r.destination)
      else if r.command == command_mux
      then pure (to_mux vision user)
      else fail unknown_command

  -- The switch on the user's flow. Making the VisionConn fails on a TLS connection that it does not know: `vision_ok`.
  unfoldable pub with_flow : Bool → T → Request A → Prog Bytes (Handed A T)
  unfolding hand_over
  with_flow vision_ok user r =
      if same_bytes r.flow flow_vision
      then (if vision_ok then hand_over true user r else fail upstream)
      else if same_bytes r.flow []
      then hand_over false user r
      else fail unknown_flow

  -- NewConnection from the user on.
  unfoldable pub serve_user : Bool → Service T → T → Request A → Prog Bytes (Handed A T)
  unfolding with_flow flow_of_user
  serve_user vision_ok v user r =
      if same_bytes r.flow flow_vision && r.command == command_udp
      then fail udp_flow
      else if not (same_bytes r.flow (flow_of_user v user))
      then fail flow_mismatch
      else if r.command == command_udp
      then pure (to_packets user r.destination)
      else with_flow vision_ok user r

  -- NewConnection from the test on whether there is a user.
  unfoldable pub serve_found : Bool → Service T → Option T → Request A → Prog Bytes (Handed A T)
  serve_found vision_ok v none r = fail unknown_uuid
  serve_found vision_ok v (some user) r = serve_user vision_ok v user r

  -- NewConnection from the request on.
  unfoldable pub serve : Bool → Service T → Request A → Prog Bytes (Handed A T)
  unfolding serve_found
  serve vision_ok v r = serve_found vision_ok v (look_up same_bytes v.user_map r.uuid) r

  -- NewConnection, behind the decryption.
  pub new_connection : Bool → Service T → Prog Bytes (Handed A T)
  unfolding serve
  new_connection vision_ok v = do r ← read_request s; serve vision_ok v r
