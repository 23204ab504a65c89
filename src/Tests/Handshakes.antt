-- ===== src/Tests/Handshakes.antt =====
-- Inputs for the handshakes (client.go, service.go, kdf.go, vless/encryption/common.go and service.go).
use sing_vmess.Base.{
  ◌<◌, ◌^◌, ℕ, ◌+◌, ◌-◌, ◌*◌, ◌≤◌, ◌≡◌, refl, ◌⊎◌, Bool, true, false, not, ◌||◌, Option, none, some,
  List, [], ◌∷◌, ◌++◌, arith, ◌==◌, length, replicate, ok, err, replay, ticket_expired, Bytes,
  put_u16, open_sink,
}
use sing_vmess.Address.{toy_serializer, toy_serializer-IsSerializer}
use sing_vmess.Vless.Service.Users.{look_up, same_bytes}
use sing_vmess.Vmess.Crypto.{toy_crypto, toy_crypto-IsCrypto}
use sing_vmess.Vmess.Header.{
  encode_header, fixed_part, hashed, Header, header_address, header_len, known_security,
  known_command,
}
use sing_vmess.Vmess.Header.RoundTrip.{IsHeader, received}
use sing_vmess.Vmess.Request.{
  seal_length, seal_header, Draws, aead_request, auth_id, auth_block, legacy_request, legacy_id,
}
use sing_vmess.Vmess.Service.{LegacyUser, Filter, Service, new_connection}
use sing_vmess.Vmess.Service.RoundTrip.{new_connection-aead_request, new_connection-replay}
use sing_vmess.Vmess.Service.Legacy.{new_connection-legacy_request}
use sing_vmess.Vmess.Response.{write_response, read_response}
use sing_vmess.Vmess.Response.RoundTrip.{read_response-write_response}
use sing_vmess.Vmess.AlterIds.{Table, update_users}
use sing_vmess.Vmess.AlterIds.Window.{IsIssued, update_users-IsIssued}
use sing_vmess.Encryption.Padding.{
  parse_segments, parse_segment, split, split_with, take_segment, Plan, parse_padding,
  create_padding, min_padding_length, max_total_padding,
}
use sing_vmess.Encryption.Padding.Bounds.{total, sum, create_padding-parse_padding}
use sing_vmess.Encryption.Sessions.{Sessions, take_ticket, use_session, member}
use sing_vmess.Encryption.Sessions.Replay.{
  cleaned, gave, Reaches, here, step, apply, take_ticket-Reaches, Avoids,
}

-- A replay filter: the bytes seen, as a list.
abbrev seen : Bytes → List Bytes → Bool
seen b [] = false
seen b (x ∷ xs) = same_bytes x b || seen b xs

abbrev filter : Filter (List Bytes)
filter = record { check = λ b f. (not (seen b f), b ∷ f) }

abbrev header : Header ℕ
header = record {
  nonce = replicate 16 1;
  key = replicate 16 2;
  response = 9;
  option = 5;
  security = 3;
  command = 1;
  destination = 443;
}

header-IsHeader : IsHeader header
header-IsHeader = record {
  length-nonce = refl;
  length-key = refl;
  security-known = unfold known_security in refl;
  command-known = unfold known_command in refl;
  packets-chunked = refl;
}

header_address_443 : header_address toy_serializer header ≡ some (put_u16 443)
header_address_443 = unfold header_address in refl

abbrev draws : Draws
draws = record {
  auth_random = 1 ∷ 2 ∷ 3 ∷ 4 ∷ [];
  connection_nonce = replicate 8 0;
  padding = 7 ∷ 7 ∷ [];
  region = replicate 62 0;
  partial_address = [];
}

region_size : length draws.region ≡ header_len toy_serializer 2 header + 16
region_size = unfold header_len in refl

abbrev service : Service ℕ
service = record {
  user_id_cipher = (1, replicate 16 5) ∷ [];
  user_key = λ u. replicate 16 5;
  alter_id_map = λ id. none;
  has_alter_ids = false;
  disable_header_protect = false;
}

abbrev sent : Bytes
sent = aead_request toy_crypto toy_serializer (replicate 16 5) 1000 draws header

sent_long : 100 ≤ length sent
unfolding aead_request auth_id seal_length seal_header encode_header header_address header_len
    fixed_part
sent_long = omega arith

new_connection-aead_request_example :
    new_connection toy_crypto toy_serializer 32768 filter service 1100 sent
      (record { conn = 8 ∷ []; filter_state = [] })
    ≡ ok
        (record { user = 1; legacy = false; header = received toy_serializer header })
        (record {
          conn = 8 ∷ [];
          filter_state = auth_block toy_crypto 1000 (1 ∷ 2 ∷ 3 ∷ 4 ∷ []) ∷ [];
        })
new_connection-aead_request_example =
    new_connection-aead_request toy_crypto toy_crypto-IsCrypto toy_serializer
      toy_serializer-IsSerializer header header-IsHeader draws (put_u16 443) header_address_443
      (omega arith) refl refl region_size filter service 1 [] [] 1100 1000 32768 (replicate 16 5)
      sent (8 ∷ []) (8 ∷ []) [] (auth_block toy_crypto 1000 (1 ∷ 2 ∷ 3 ∷ 4 ∷ []) ∷ []) refl refl tt
      refl (omega arith) (omega arith) (omega arith) sent_long refl

-- The filter after the request, which it then refuses.
abbrev kept : List Bytes
kept = auth_block toy_crypto 1000 (1 ∷ 2 ∷ 3 ∷ 4 ∷ []) ∷ []

refuses :
    filter.check (auth_block toy_crypto 1000 (1 ∷ 2 ∷ 3 ∷ 4 ∷ [])) kept
    ≡ (false, auth_block toy_crypto 1000 (1 ∷ 2 ∷ 3 ∷ 4 ∷ []) ∷ kept)
unfolding same_bytes
refuses = refl

new_connection-replay_example :
    new_connection toy_crypto toy_serializer 32768 filter service 1100 sent
      (record { conn = 8 ∷ []; filter_state = kept })
    ≡ err replay (record {
      conn = 8 ∷ [];
      filter_state = auth_block toy_crypto 1000 (1 ∷ 2 ∷ 3 ∷ 4 ∷ []) ∷ kept;
    })
new_connection-replay_example =
    new_connection-replay toy_crypto toy_crypto-IsCrypto toy_serializer toy_serializer-IsSerializer
      header header-IsHeader draws (put_u16 443) header_address_443 (omega arith) refl refl
      region_size filter service 1 [] [] 1100 1000 32768 (replicate 16 5) sent (8 ∷ []) (8 ∷ [])
      kept (auth_block toy_crypto 1000 (1 ∷ 2 ∷ 3 ∷ 4 ∷ []) ∷ kept) refl tt refuses (omega arith)
      (omega arith) sent_long refl

abbrev legacy_service : Service ℕ
legacy_service = record {
  user_id_cipher = [];
  user_key = λ u. replicate 16 5;
  alter_id_map = λ id. some (record { user = 1; time = 1000; index = 0 });
  has_alter_ids = true;
  disable_header_protect = false;
}

abbrev legacy_sent : Bytes
legacy_sent =
    legacy_id toy_crypto [] 1000 ++ hashed (fixed_part 1 header ++ (put_u16 443 ++ (7 ∷ [])))

legacy_request_sent :
    legacy_request toy_crypto toy_serializer (replicate 16 5) [] 1000 (7 ∷ []) header
    ≡ some legacy_sent
unfolding legacy_request encode_header header_address
legacy_request_sent = refl

legacy_long : 54 ≤ length legacy_sent
unfolding legacy_id fixed_part
legacy_long = omega arith

new_connection-legacy_request_example :
    new_connection toy_crypto toy_serializer 32768 filter legacy_service 1100 legacy_sent
      (record { conn = 8 ∷ []; filter_state = [] })
    ≡ ok
        (record { user = 1; legacy = true; header = received toy_serializer header })
        (record { conn = 8 ∷ []; filter_state = [] })
new_connection-legacy_request_example =
    new_connection-legacy_request toy_crypto toy_crypto-IsCrypto toy_serializer
      toy_serializer-IsSerializer header header-IsHeader (7 ∷ []) (put_u16 443) header_address_443
      (omega arith) (replicate 16 5) [] 1000 filter legacy_service 1 1100 32768 0 legacy_sent
      legacy_sent (8 ∷ []) (8 ∷ []) [] tt refl refl refl legacy_request_sent legacy_long refl

read_response-write_response_example :
    (out : Bytes) × (write_response toy_crypto true
        (replicate 16 2)
        (replicate 16 1)
        9
        5
        (open_sink [])
      ≡ ok tt (open_sink out))
    × (read_response toy_crypto true (replicate 16 2) (replicate 16 1) 9 (out ++ (8 ∷ []))
        ≡ ok tt (8 ∷ []))
read_response-write_response_example =
    read_response-write_response toy_crypto toy_crypto-IsCrypto true (replicate 16 2)
      (replicate 16 1) (8 ∷ []) 9 5

-- A hash that keeps the time.
abbrev time_of : Bytes → ℕ → Bytes
time_of id t = t ∷ id

abbrev users : List (ℕ × List Bytes)
users = (1, (5 ∷ []) ∷ (6 ∷ []) ∷ []) ∷ []

abbrev no_table : Table ℕ
no_table = record { alter_ids = []; alter_id_update_time = []; alter_id_map = [] }

update_users-IsIssued_example :
    (e : LegacyUser ℕ) × (look_up same_bytes
        (update_users time_of ◌==◌ 1000 users no_table).alter_id_map
        (time_of (6 ∷ []) 900)
      ≡ some e)
    × IsIssued time_of 880 1120 users (time_of (6 ∷ []) 900) e
update_users-IsIssued_example =
    update_users-IsIssued time_of ◌==◌ 1000 [] [] 1 ((5 ∷ []) ∷ []) [] (6 ∷ []) 900 no_table
      (omega arith) (omega arith)

-- A table of one user with one id, and the entry of the time 1005 after the updates at 1000 and 1010.
abbrev one_id : Table ℕ
one_id = record {
  alter_ids = (1, (5 ∷ []) ∷ []) ∷ [];
  alter_id_update_time = [];
  alter_id_map = [];
}

abbrev entry : LegacyUser ℕ
entry = record { user = 1; time = 1005; index = 0 }

-- Decimal numbers of at most three digits.
abbrev atoi : Bytes → Option ℕ
atoi (a ∷ []) = some (a - 48)
atoi (a ∷ b ∷ []) = some (10 * (a - 48) + (b - 48))
atoi (a ∷ b ∷ c ∷ []) = some (100 * (a - 48) + 10 * (b - 48) + (c - 48))
atoi b = none

-- "100-40-99".
abbrev segment : Bytes
segment = 49 ∷ 48 ∷ 48 ∷ 45 ∷ 52 ∷ 48 ∷ 45 ∷ 57 ∷ 57 ∷ []

abbrev plan : Plan
plan = record {
  padding_lens = record { chance = 100; low = 40; high = 99 } ∷ [];
  padding_gaps = [];
  max_len = 99;
}

parsed : parse_padding atoi (segment ∷ []) ≡ some plan
unfolding parse_padding parse_segments parse_segment split split_with take_segment
parsed = refl

plan_small : total plan.padding_lens < 2 ^ 63
unfolding total
plan_small = omega arith

create_padding-parse_padding_example :
    (n : ℕ) × (lens : List ℕ) × (gap_times rest : List ℕ) × (create_padding plan.padding_lens
        plan.padding_gaps
        (50 ∷ 1000 ∷ [])
      ≡ ok (n, lens, gap_times) rest)
    × (n ≡ sum lens)
    × (min_padding_length ≤ n)
    × (n ≤ max_total_padding)
create_padding-parse_padding_example =
    create_padding-parse_padding atoi segment [] plan (50 ∷ 1000 ∷ []) parsed plan_small

abbrev given : Sessions
given = record {
  lasts = [];
  tickets = (1 ∷ []) ∷ [];
  sessions = (1 ∷ [], record { pfs_key = 5 ∷ []; nfs_keys = [] }) ∷ [];
}

abbrev used : Sessions
used = record given {
  sessions = (1 ∷ [], record { pfs_key = 5 ∷ []; nfs_keys = (7 ∷ []) ∷ [] }) ∷ given.sessions;
}

first_use : take_ticket (1 ∷ []) (7 ∷ []) given ≡ ok (5 ∷ 7 ∷ []) used
unfolding take_ticket use_session member look_up same_bytes
first_use = refl

-- Another ticket is given, and one turn of the cleaning passes.
history : Reaches (1 ∷ []) used (apply (cleaned 60) (apply (gave 60 0 5 (2 ∷ []) []) used))
history =
    step (gave 60 0 5 (2 ∷ []) []) (unfold Avoids same_bytes in refl)
      (step (cleaned 60) (unfold Avoids in tt) here)

take_ticket-Reaches_example :
    (take_ticket (1 ∷ []) (7 ∷ []) (apply (cleaned 60) (apply (gave 60 0 5 (2 ∷ []) []) used))
      ≡ err ticket_expired (apply (cleaned 60) (apply (gave 60 0 5 (2 ∷ []) []) used)))
    ⊎ (take_ticket (1 ∷ []) (7 ∷ []) (apply (cleaned 60) (apply (gave 60 0 5 (2 ∷ []) []) used))
        ≡ err replay (apply (cleaned 60) (apply (gave 60 0 5 (2 ∷ []) []) used)))
take_ticket-Reaches_example =
    take_ticket-Reaches (1 ∷ []) (7 ∷ []) (5 ∷ 7 ∷ []) given used
      (apply (cleaned 60) (apply (gave 60 0 5 (2 ∷ []) []) used)) first_use history
