-- ===== src/Encryption/Padding.antt =====
-- The padding of the handshake (vless/encryption/common.go: parsePadding, createPadding, randBetween).
pub mod Bounds
use sing_vmess.Base.{
  ℕ, zero, suc, ◌+◌, ◌-◌, ◌*◌, ◌/◌, ◌%◌, ◌^◌, ◌≤◌, ◌<◌, min, bit_and, bit_or, bit_xor, ◌≡◌, refl,
  sym, ap, ap₂, ◌∙◌, subst, ◌≢◌, ◌↔◌, ◌⊎◌, inl, inr, Bool, true, false, not, ◌&&◌, ◌||◌, Option,
  none, some, List, [], ◌∷◌, ◌++◌, map, append-nil, append_assoc, arith, ltb, leb, ◌==◌,
  if◌then◌else◌, lt→ltb, le→leb, ==_iff, Bool-cases, length, get_or, take, drop, replicate,
  length-append, take-append-drop, length-take, length-drop, length-replicate, take_all, drop_all,
  take_ge, drop_ge, All, concat, Error, eof, unexpected_eof, short_buffer, upstream,
  bad_length_chunk, invalid_checksum, open_failed, unexpected_frame_new, unexpected_frame,
  remote_closed, invalid_frame_length, bad_address, bad_network, bad_session_status, pipe_closed,
  unknown_version, unknown_header, overflow, invalid_header, unknown_command, blocked,
  fqdn_unsupported, empty_segment, segment_too_large, invalid_segment, Outcome, ok, err, Prog, pure,
  fail, state_of, and_then, ◌>>=◌, ◌>>◌, Lens, lift, zoom, gets, modify, bit_xor_cancel, bit_xor-lt,
  bit_xor-zero, unknown_uuid, udp_flow, flow_mismatch, unknown_flow, unknown_network, bad_request,
  replay, bad_timestamp, bad_checksum, bad_response, unknown_option, bad_security, ticket_expired,
  bad_padding, Bytes, IsByte, IsU16, put_u16, u16, put_u32, u16-put, short, read_full, discard,
  read_byte, read_u16, read_full-append, discard-append, read_full-short, length-read_full, Sink,
  write, open_sink, write_open, write_with,
}

-- An int of 64 bits, whose sums wrap: a number from 2 ^ 63 up stands for a negative one.
abbrev pub int_limit : ℕ
int_limit = 2 ^ 64

abbrev pub add_int : ℕ → ℕ → ℕ
add_int a b = (a + b) % int_limit

abbrev pub min_padding_length : ℕ
min_padding_length = 35

abbrev pub max_total_padding : ℕ
max_total_padding = 65553

-- A triple of a plan: the chance in a hundred, and the two ends of the range.
pub record Segment : Type 0 where
  pub chance : ℕ
  pub low : ℕ
  pub high : ℕ

-- What parsePadding has gathered so far.
pub record Plan : Type 0 where
  pub padding_lens : List Segment
  pub padding_gaps : List Segment
  pub max_len : ℕ

abbrev pub max_of : ℕ → ℕ → ℕ
max_of a b = if ltb a b then b else a

-- strings.Split by a dash.
unfoldable pub split_with : Bytes → Bytes → List Bytes
split_with part [] = part ∷ []
split_with part (b ∷ bs) =
    if b == 45 then part ∷ split_with [] bs else split_with (part ++ (b ∷ [])) bs

unfoldable pub split : Bytes → List Bytes
unfolding split_with
split segment = split_with [] segment

-- randBetween, with the numbers that the random source gives, one for each call of it.
pub rand_between : ℕ → ℕ → Prog (List ℕ) ℕ
rand_between from to draws =
    if from == to
    then ok from draws
    else ok (min from to + get_or draws 0 0 % (max_of from to - min from to)) (drop 1 draws)

-- The length, or the gap, of a triple.
pub draw_segment : Segment → Prog (List ℕ) ℕ
draw_segment y = do
  chance ← rand_between 0 100
  if ltb y.chance chance then pure 0 else rand_between y.low y.high

pub draw_all : List Segment → Prog (List ℕ) (List ℕ)
unfolding draw_segment
draw_all [] = pure []
draw_all (y ∷ ys) = do l ← draw_segment y; ls ← draw_all ys; pure (l ∷ ls)

-- `length += l`, from the length `n` on.
pub sum_from : ℕ → List ℕ → ℕ
sum_from n [] = n
sum_from n (l ∷ ls) = sum_from (add_int n l) ls

-- The plan of a configuration without one.
abbrev pub default_lens : List Segment
default_lens =
    record { chance = 100; low = 111; high = 1111 }
    ∷ record { chance = 50; low = 0; high = 3333 }
    ∷ []

abbrev pub default_gaps : List Segment
default_gaps = record { chance = 75; low = 0; high = 111 } ∷ []

abbrev pub or_default : List Segment → List Segment → List Segment × List Segment
or_default [] gaps = (default_lens, default_gaps)
or_default (y ∷ ys) gaps = (y ∷ ys, gaps)

-- createPadding: the total length, the lengths, and the gaps in milliseconds.
pub create_padding : List Segment → List Segment → Prog (List ℕ) (ℕ × List ℕ × List ℕ)
unfolding draw_all sum_from
create_padding padding_lens padding_gaps = do
  lens ← draw_all (or_default padding_lens padding_gaps).0
  gaps ← draw_all (or_default padding_lens padding_gaps).1
  pure (sum_from 0 lens, lens, gaps)

-- What the loop does with the values of the segment `i`.
unfoldable pub take_segment : ℕ → Segment → Plan → Option Plan
take_segment i y p =
    if i == 0
      && (ltb y.chance 100 || (ltb y.low min_padding_length || ltb y.high min_padding_length))
    then none
    else if i % 2 == 0
    then some (record p {
      padding_lens = p.padding_lens ++ (y ∷ []);
      max_len = add_int p.max_len (max_of y.low y.high);
    })
    else some (record p { padding_gaps = p.padding_gaps ++ (y ∷ []) })

abbrev pub after : {X Y : Type 0} → Option X → (X → Option Y) → Option Y
after none f = none
after (some x) f = f x

-- The test on the sum, which a negative one passes.
abbrev pub within_total : Plan → Option Plan
within_total p = if ltb max_total_padding p.max_len && ltb p.max_len (2 ^ 63) then none else some p

-- `atoi` is strconv.Atoi of a text without a dash.
module _ (atoi : Bytes → Option ℕ) where
  abbrev three_values : Option ℕ → Option ℕ → Option ℕ → Option Segment
  three_values (some a) (some b) (some c) = some (record { chance = a; low = b; high = c })
  three_values _ _ _ = none

  abbrev parse_parts : List Bytes → Option Segment
  parse_parts ((a ∷ r) ∷ (b ∷ s) ∷ (c ∷ t) ∷ more) =
      three_values (atoi (a ∷ r)) (atoi (b ∷ s)) (atoi (c ∷ t))
  parse_parts _ = none

  -- A segment of the configuration.
  unfoldable pub parse_segment : Bytes → Option Segment
  unfolding split
  parse_segment segment = parse_parts (split segment)

  -- The loop over the segments, from the number `i` on.
  unfoldable pub parse_segments : ℕ → List Bytes → Plan → Option Plan
  unfolding parse_segment take_segment
  parse_segments i [] p = some p
  parse_segments i (segment ∷ segments) p =
      after (parse_segment segment)
        λ y. after (take_segment i y p) λ q. parse_segments (suc i) segments q

  -- parsePadding, where an error is `none`. Without segments there is no plan.
  unfoldable pub parse_padding : List Bytes → Option Plan
  unfolding parse_segments
  parse_padding segments =
      after
        (parse_segments 0 segments (record { padding_lens = []; padding_gaps = []; max_len = 0 }))
        within_total
