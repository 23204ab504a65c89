-- ===== src/Vless/Vision.antt =====
-- The buffers of the vision flow (vless/constant.go: reshapeBuffer; vless/vision.go: padding, unPadding).
mod Bytewise
mod Direct
mod Filter
pub mod Pieces
pub mod Reshape
pub mod Unpadding
pub mod Switching
pub mod Writing
use sing_vmess.Base.{
  ℕ, zero, suc, ◌+◌, ◌-◌, ◌*◌, ◌/◌, ◌%◌, ◌^◌, ◌≤◌, ◌<◌, min, bit_and, bit_or, bit_xor, ◌≡◌, refl,
  sym, ap, ap₂, ◌∙◌, subst, ◌≢◌, ◌↔◌, ◌⊎◌, inl, inr, Bool, true, false, not, ◌&&◌, ◌||◌, Option,
  none, some, List, [], ◌∷◌, ◌++◌, map, append-nil, append_assoc, arith, ltb, leb, ◌==◌,
  if◌then◌else◌, lt→ltb, le→leb, ==_iff, Bool-cases, length, get_or, take, drop, replicate,
  length-append, take-append-drop, length-take, length-drop, length-replicate, take_all, drop_all,
  take_ge, drop_ge, All, concat, Error, eof, unexpected_eof, short_buffer, upstream,
  bad_length_chunk, invalid_checksum, open_failed, unexpected_frame_new, unexpected_frame,
  remote_closed, invalid_frame_length, bad_address, bad_network, bad_session_status, pipe_closed,
  unknown_version, unknown_header, overflow, invalid_header, unknown_command, blocked,
  fqdn_unsupported, empty_segment, segment_too_large, invalid_segment, Outcome, ok, err, Prog, pure,
  fail, state_of, and_then, ◌>>=◌, ◌>>◌, Lens, lift, zoom, gets, modify, bit_xor_cancel, bit_xor-lt,
  bit_xor-zero, Bytes, IsByte, IsU16, put_u16, u16, put_u32, u16-put, short, read_full, discard,
  read_byte, read_u16, read_full-append, discard-append, read_full-short, length-read_full, Sink,
  write, open_sink, write_open,
}

-- bytes.LastIndex of tlsApplicationDataStart in `b`, whose first byte has the index `i`.
pub starts : Bytes → Bool
starts (x ∷ y ∷ z ∷ b) = x == 23 && y == 3 && z == 3
starts b = false

pub last_index : ℕ → Bytes → Option ℕ
unfolding starts
last_index i [] = none
last_index i (x ∷ b) = elim (last_index (i + 1) b) [
  | some k ↦ some k
  | none ↦ if starts (x ∷ b) then some i else none
]

abbrev pub buffer_limit : ℕ
buffer_limit = 8192 - 21

-- Where reshapeBuffer cuts.
pub cut_at : Option ℕ → ℕ
cut_at none = 8192 / 2
cut_at (some k) = if ltb k 32 || ltb buffer_limit k then 8192 / 2 else k

-- reshapeBuffer. The fuel bounds the cuts.
pub reshape_buffer : ℕ → Bytes → List Bytes
reshape_buffer zero b = b ∷ []
reshape_buffer (suc fuel) b =
    let index = cut_at (last_index 0 b) in
    let rest = reshape_buffer fuel (drop index b) in
    if ltb (length b) buffer_limit then b ∷ [] else take index b ∷ rest

-- padding's state: writeUUID, and the numbers that the random source will give.
pub record Padder : Type 0 where
  pub user_uuid : Bytes
  pub write_uuid : Bool
  pub is_tls : Bool
  pub drawn : ℕ

-- The length of the padding. `entropy` is rand.Int: a number below its bound, the next one each time.
unfoldable pub padding_len : (ℕ → ℕ → ℕ) → ℕ → Padder → ℕ
padding_len entropy content c =
    if ltb content 900 && c.is_tls then entropy c.drawn 500 + 900 - content else entropy c.drawn 256

-- padding, of a buffer with the bytes `p`. `filler` is what Extend finds in the new buffer.
unfoldable pub padding : (ℕ → ℕ → ℕ) → (ℕ → Bytes) → Bytes → ℕ → Padder → Bytes × Padder
padding entropy filler p command c =
    let n = padding_len entropy (length p) c in
    (
      (if c.write_uuid then c.user_uuid else [])
          ++ (command ∷ (put_u16 (length p) ++ (put_u16 n ++ (p ++ filler n)))),
      record c { write_uuid = false; drawn = c.drawn + 1 },
    )

-- unPadding's state: remainingContent and remainingPadding, which are -1 together (none), and the part of
-- paddingHeader that is filled.
pub record Unpadder : Type 0 where
  pub user_uuid : Bytes
  pub remaining : Option (ℕ × ℕ)
  pub current_command : ℕ
  pub header : Bytes

-- bytes.Equal.
pub equal : Bytes → Bytes → Bool
equal [] [] = true
equal [] (y ∷ ys) = false
equal (x ∷ xs) [] = false
equal (x ∷ xs) (y ∷ ys) = x == y && equal xs ys

-- The header of a block, when it is full.
pub enter_block : Bytes → Unpadder → Unpadder
enter_block h u = record u {
  header = [];
  current_command = get_or h 0 0;
  remaining = some (u16 (get_or h 1 0) (get_or h 2 0), u16 (get_or h 3 0) (get_or h 4 0));
}

-- The loop of unPadding, on what is left of the buffer: the contents, and the state. The fuel bounds its
-- turns, each of which takes a byte.
pub unpad_loop : ℕ → ℕ → ℕ → Bytes → Unpadder → List Bytes × Unpadder
unpad_loop zero content padding b u = ([], u)
unpad_loop (suc fuel) content padding [] u = ([], u)
unpad_loop (suc fuel) content padding (x ∷ b) u =
    let buffer = x ∷ b in
    if content == 0 && padding == 0
    then (if u.current_command == 1
        then (buffer ∷ [], u)
        else (let got = u.header ++ take (5 - length u.header) buffer in
            let left = drop (5 - length u.header) buffer in
            let v = enter_block got u in
            let next =
              unpad_loop fuel (u16 (get_or got 1 0) (get_or got 2 0))
                (u16 (get_or got 3 0) (get_or got 4 0)) left v in
            if ltb (length got) 5 then ([], record u { header = got }) else next))
    else (let after =
          unpad_loop fuel (content - length buffer) padding (drop content buffer)
            (record u { remaining = some (content - length buffer, padding) }) in
        let skipped =
          unpad_loop fuel 0 (padding - length buffer) (drop padding buffer)
            (record u { remaining = some (0, padding - length buffer) }) in
        if ltb 0 content then (take content buffer ∷ after.0, after.1) else skipped)

unpad_from : Option (ℕ × ℕ) → Bytes → Unpadder → List Bytes × Unpadder
unpad_from none b u = (b ∷ [], u)
unpad_from (some (content, padding)) b u = unpad_loop (length b) content padding b u

-- unPadding.
pub unpadding : Bytes → Unpadder → List Bytes × Unpadder
unfolding unpad_from
unpadding b u = elim u.remaining [
  | some r ↦ unpad_from (some r) b u
  | none ↦
      if leb 21 (length b) && equal u.user_uuid (take 16 b)
      then unpad_from (some (0, 0)) (drop 16 b)
          (record u { remaining = some (0, 0); current_command = 0 })
      else unpad_from none b u
]
