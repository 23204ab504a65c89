-- ===== src/Mux/Session/Streams.antt =====
-- The streams map of the server's session (mux.go): which ids are registered, and who owns a pipe.
pub mod Ownership
pub mod Delivery
use sing_vmess.Base.{
  ℕ, zero, suc, ◌+◌, ◌-◌, ◌*◌, ◌/◌, ◌%◌, ◌^◌, ◌≤◌, ◌<◌, min, bit_and, bit_or, bit_xor, ◌≡◌, refl,
  sym, ap, ap₂, ◌∙◌, subst, ◌≢◌, ◌↔◌, ◌⊎◌, inl, inr, Bool, true, false, not, ◌&&◌, ◌||◌, Option,
  none, some, List, [], ◌∷◌, ◌++◌, map, append-nil, append_assoc, arith, ltb, leb, ◌==◌,
  if◌then◌else◌, lt→ltb, le→leb, ==_iff, Bool-cases, length, get_or, take, drop, replicate,
  length-append, take-append-drop, length-take, length-drop, length-replicate, take_all, drop_all,
  take_ge, drop_ge, All, concat, Error, eof, unexpected_eof, short_buffer, upstream,
  bad_length_chunk, invalid_checksum, open_failed, unexpected_frame_new, unexpected_frame,
  remote_closed, invalid_frame_length, bad_address, bad_network, bad_session_status, pipe_closed,
  unknown_version, unknown_header, overflow, invalid_header, unknown_command, blocked,
  fqdn_unsupported, empty_segment, segment_too_large, invalid_segment, Outcome, ok, err, Prog, pure,
  fail, state_of, and_then, ◌>>=◌, ◌>>◌, Lens, lift, zoom, gets, modify, bit_xor_cancel, bit_xor-lt,
  bit_xor-zero, Bytes, IsByte, IsU16, put_u16, u16, put_u32, u16-put, short, read_full, discard,
  read_byte, read_u16, read_full-append, discard-append, read_full-short, length-read_full, Sink,
  write, open_sink, write_open,
}
use sing_vmess.Address.{Serializer}
use sing_vmess.Mux.Frame.{network_tcp, network_udp, write_close_frame}
use sing_vmess.Mux.Session.{
  Stream, Session, Pipe, find, remove, insert, update, close_found, local_close, sync_close,
  close_stream, on_pipe, open_stream, keep_found, dispatch, recv_to, deliver, receive_data,
  receive_option, recv, read_metadata, conn_lens, writer_lens, write_packet, write_pipe,
}

module _ {V : Type 0} where
  pub find-remove : (k : ℕ) (m : List (ℕ × V)) → find k (remove k m) ≡ none
  unfolding find remove
  find-remove k [] = refl
  find-remove k ((j, v) ∷ m) = ground (arith, find-remove k m)

  pub find-remove_other : (k j : ℕ) (m : List (ℕ × V)) → j ≢ k → find j (remove k m) ≡ find j m
  unfolding find remove
  find-remove_other k j [] h = refl
  find-remove_other k j ((i, v) ∷ m) h = ground (arith, find-remove_other k j m h)

  pub find-insert : (k : ℕ) (v : V) (m : List (ℕ × V)) → find k (insert k v m) ≡ some v
  unfolding find insert
  find-insert k v m = ground arith

  pub find-insert_other :
      (k j : ℕ) (v : V) (m : List (ℕ × V)) → j ≢ k → find j (insert k v m) ≡ find j m
  unfolding find insert
  find-insert_other k j v m h = ground (arith, find-remove_other k j m h)

module _ {A : Type 0} where
  close_found_gone :
      (id : ℕ) (e : Option Error) (c : Session A) (o : Option (Stream A))
      → find id c.streams ≡ o
      → find id (close_found id e o c).1.streams ≡ none
  unfolding close_found
  close_found_gone id e c none h = h
  close_found_gone id e c (some st) h = find-remove id c.streams

  close_stream_missing :
      (id : ℕ) (e : Option Error) (c : Session A)
      → find id c.streams ≡ none
      → close_stream id e c ≡ ok tt c
  unfolding local_close close_found close_stream
  close_stream_missing id e c h = rw h

  -- Of two closes of a stream, by the peer, by its handler or after an error, only the first acts: once
  -- localClose has run for an id, the id is gone, and a close of it changes nothing and sends no frame.
  pub close_stream_once :
      (id : ℕ) (e e' : Option Error) (c : Session A)
      → (find id (local_close id e c).1.streams ≡ none)
        × (close_stream id e' (local_close id e c).1 ≡ ok tt (local_close id e c).1)
  unfolding local_close
  close_stream_once id e e' c =
      let gone = close_found_gone id e c (find id c.streams) refl in
      (gone, close_stream_missing id e' (local_close id e c).1 gone)

  -- No two ids share a pipe, and the next pipe is new.
  unfoldable pub IsOwned : Session A → Type 0
  IsOwned c =
      ((id : ℕ) (st : Stream A) → find id c.streams ≡ some st → st.pipe < c.next_pipe)
      × ((i j : ℕ) (a b : Stream A)
          → find i c.streams ≡ some a
          → find j c.streams ≡ some b
          → a.pipe ≡ b.pipe
          → i ≡ j)

  -- A step that keeps the map and the counter, or only takes ids out.
  IsSmaller : Session A → Session A → Type 0
  IsSmaller c c' =
      (c'.next_pipe ≡ c.next_pipe)
      × ((id : ℕ) (st : Stream A) → find id c'.streams ≡ some st → find id c.streams ≡ some st)

  IsSmaller-IsOwned : (c c' : Session A) → IsSmaller c c' → IsOwned c → IsOwned c'
  unfolding IsOwned IsSmaller
  IsSmaller-IsOwned c c' (n, s) (b, d) = (
    λ id st h. subst (λ k. st.pipe < k) (sym n) (b id st (s id st h)),
    λ i j x y hx hy. d i j x y (s i x hx) (s j y hy),
  )

  IsSmaller-refl : (c : Session A) → IsSmaller c c
  unfolding IsSmaller
  IsSmaller-refl c = (refl, λ id st h. h)

  IsSmaller-trans : (a b c : Session A) → IsSmaller a b → IsSmaller b c → IsSmaller a c
  unfolding IsSmaller
  IsSmaller-trans a b c (n, s) (m, r) = (m ∙ n, λ id st h. s id st (r id st h))

  find-remove_sub :
      (k id : ℕ) (m : List (ℕ × Stream A)) (st : Stream A)
      → find id (remove k m) ≡ some st
      → find id m ≡ some st
  unfolding find remove
  find-remove_sub k id [] st h = h
  find-remove_sub k id ((j, v) ∷ m) st h =
      ground (arith, find-remove_sub k id m st, find-remove k m)

  close_found-IsSmaller :
      (id : ℕ) (e : Option Error) (o : Option (Stream A)) (c : Session A)
      → IsSmaller c (close_found id e o c).1
  unfolding close_found IsSmaller
  close_found-IsSmaller id e none c = (refl, λ i st h. h)
  close_found-IsSmaller id e (some s) c = (refl, λ i st h. find-remove_sub id i c.streams st h)

module _ (A : Type 0) where
  -- The steps that shrink: of any result, the state.
  Shrinks : {B : Type 0} → Prog (Session A) B → Type 0
  Shrinks m = (c : Session A) → IsSmaller c (state_of (m c))

  Shrinks-bind :
      {B D : Type 0} (m : Prog (Session A) B) (f : B → Prog (Session A) D)
      → Shrinks m
      → ((x : B) → Shrinks (f x))
      → Shrinks (m >>= f)
  unfolding Shrinks
  Shrinks-bind m f hm hf c =
      elim (m c) as (λ o. IsSmaller c (state_of o) → IsSmaller c (state_of (and_then o f))) [
        | ok x c' ↦ λ h. IsSmaller-trans c c' (state_of (f x c')) h (hf x c')
        | err e c' ↦ λ h. h
      ]
        (hm c)

  Shrinks-pure : {B : Type 0} (x : B) → Shrinks (pure x)
  unfolding Shrinks
  Shrinks-pure x c = IsSmaller-refl c

  Shrinks-fail : (B : Type 0) (e : Error) → Shrinks {B = B} (fail e)
  unfolding Shrinks
  Shrinks-fail B e c = IsSmaller-refl c

  Shrinks-zoom :
      {B T : Type 0} (l : Lens (Session A) T) (m : Prog T B)
      → ((c : Session A) (t : T) → IsSmaller c (l.put c t))
      → Shrinks (zoom l m)
  unfolding Shrinks
  Shrinks-zoom l m h c = elim (m (l.get c)) as (λ o. IsSmaller c (state_of (lift l c o))) [
    | ok x t ↦ h c t
    | err e t ↦ h c t
  ]

  Shrinks-conn : {B : Type 0} (m : Prog Bytes B) → Shrinks (zoom conn_lens m)
  unfolding IsSmaller
  Shrinks-conn m = Shrinks-zoom conn_lens m λ c t. (refl, λ id st h. h)

  Shrinks-writer : {B : Type 0} (m : Prog Bytes B) → Shrinks (zoom writer_lens m)
  unfolding IsSmaller
  Shrinks-writer m = Shrinks-zoom writer_lens m λ c t. (refl, λ id st h. h)

  Shrinks-pipe : (k : ℕ) (m : Prog Pipe (Unit {0})) → Shrinks (on_pipe k m)
  unfolding Shrinks on_pipe IsSmaller
  Shrinks-pipe k m c =
      elim (m (c.pipes k))
        as (λ o. IsSmaller c (
          state_of (
            lift
              (record {
                get = λ (c : Session A). c.pipes k;
                put = λ c p. record c { pipes = update c.pipes k p };
              })
              c o))) [ ok x t ↦ (refl, λ id st h. h) | err e t ↦ (refl, λ id st h. h) ]

  Shrinks-close : (id : ℕ) (e : Option Error) → Shrinks (close_stream id e)
  unfolding Shrinks close_stream local_close sync_close
  Shrinks-close id e c =
      let c' = (close_found id e (find id c.streams) c).1 in
      let s = close_found-IsSmaller id e (find id c.streams) c in
      elim (close_found id e (find id c.streams) c).0
        as (λ b. IsSmaller c (
          state_of
            (if b then sync_close id (elim e [ none ↦ false | some x ↦ true ]) c' else ok tt c'))) [
              | true ↦ IsSmaller-trans c c' _ s (
                  Shrinks-writer (write_close_frame id (elim e [ none ↦ false | some x ↦ true ]))
                    c')
              | false ↦ s
            ]
