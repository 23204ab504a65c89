-- ===== src/Mux/Session/Streams/Ownership.antt =====
-- recv keeps the streams of a session (mux.go) apart.
use sing_vmess.Base.{
  ℕ, ◌+◌, ◌<◌, bit_and, ◌≡◌, refl, sym, ap, ◌∙◌, subst, inl, inr, Bool, true, false, ◌||◌, Option,
  none, some, arith, ◌==◌, if◌then◌else◌, Bool-cases, length, Error, remote_closed, bad_address,
  Outcome, ok, err, Prog, pure, state_of, and_then, ◌>>=◌, zoom, Bytes, put_u16, read_full, discard,
  read_byte, read_u16,
}
use sing_vmess.Address.{Serializer}
use sing_vmess.Mux.Frame.{network_tcp, network_udp}
use sing_vmess.Mux.Session.{
  Stream, Session, find, insert, local_close, close_stream, on_pipe, open_stream, keep_found,
  dispatch, recv_to, deliver, receive_data, receive_option, recv, read_metadata, conn_lens,
  write_packet, write_pipe,
}
use sing_vmess.Mux.Session.Streams.{
  IsOwned, IsSmaller, Shrinks, find-insert, find-insert_other, IsSmaller-refl, IsSmaller-trans,
  IsSmaller-IsOwned, Shrinks-bind, Shrinks-pure, Shrinks-fail, Shrinks-conn, Shrinks-pipe,
  Shrinks-close, close_found-IsSmaller,
}

module _ {A : Type 0} (s : Serializer A) where
  -- The steps that keep the streams apart.
  Keeps : {B : Type 0} → Prog (Session A) B → Type 0
  Keeps m = (c : Session A) → IsOwned c → IsOwned (state_of (m c))

  Keeps-bind :
      {B D : Type 0} (m : Prog (Session A) B) (f : B → Prog (Session A) D)
      → Keeps m
      → ((x : B) → Keeps (f x))
      → Keeps (m >>= f)
  unfolding Keeps
  Keeps-bind m f hm hf c o =
      elim (m c) as (λ r. IsOwned (state_of r) → IsOwned (state_of (and_then r f))) [
        | ok x c' ↦ λ h. hf x c' h
        | err e c' ↦ λ h. h
      ]
        (hm c o)

  Shrinks-Keeps : {B : Type 0} (m : Prog (Session A) B) → Shrinks A m → Keeps m
  unfolding Keeps Shrinks
  Shrinks-Keeps m h c o = IsSmaller-IsOwned c (state_of (m c)) (h c) o

  insert_bound :
      (id i : ℕ) (st a : Stream A) (c : Session A)
      → st.pipe ≡ c.next_pipe
      → IsOwned c
      → find i (insert id st c.streams) ≡ some a
      → a.pipe < c.next_pipe + 1
  unfolding IsOwned
  insert_bound id i st a c hp (b, d) h = elim (Bool-cases (i == id)) [
    | inl e ↦ ground (arith, find-insert id st c.streams)
    | inr e ↦ ground (arith, find-insert_other id i st c.streams, b i a)
  ]

  insert_apart :
      (id i j : ℕ) (st x y : Stream A) (c : Session A)
      → st.pipe ≡ c.next_pipe
      → IsOwned c
      → find i (insert id st c.streams) ≡ some x
      → find j (insert id st c.streams) ≡ some y
      → x.pipe ≡ y.pipe
      → i ≡ j
  unfolding IsOwned
  insert_apart id i j st x y c hp (b, d) hx hy e = elim (Bool-cases (i == id)) [
    | inl hi ↦
        ground (arith, find-insert id st c.streams, find-insert_other id j st c.streams, b j y)
    | inr hi ↦ ground (
      arith,
      find-insert id st c.streams,
      find-insert_other id i st c.streams,
      find-insert_other id j st c.streams,
      b i x,
      d i j x y,
    )
  ]

  insert-IsOwned :
      (id : ℕ) (st : Stream A) (c c' : Session A)
      → st.pipe ≡ c.next_pipe
      → c'.streams ≡ insert id st c.streams
      → c'.next_pipe ≡ c.next_pipe + 1
      → IsOwned c
      → IsOwned c'
  unfolding IsOwned
  insert-IsOwned id st c c' hp hs hn o = (
    λ i a h.
        subst (λ k. a.pipe < k) (sym hn) (insert_bound id i st a c hp o (ap (find i) (sym hs) ∙ h)),
    λ i j x y hx hy e.
        insert_apart id i j st x y c hp o (ap (find i) (sym hs) ∙ hx) (ap (find j) (sym hs) ∙ hy) e,
  )

  if_IsOwned :
      {B : Type 0} (b : Bool) (x y : Outcome (Session A) B)
      → IsOwned (state_of x)
      → IsOwned (state_of y)
      → IsOwned (state_of (if b then x else y))
  if_IsOwned true x y hx hy = hx
  if_IsOwned false x y hx hy = hy

  open_stream-Keeps :
      (id network : ℕ) (destination : A) → Keeps (open_stream s id network destination)
  unfolding Keeps open_stream
  open_stream-Keeps id network destination c o =
      let st : Stream A = record {
        network = network;
        destination = destination;
        pipe = c.next_pipe;
      } in
      if_IsOwned (network == network_tcp || network == network_udp) _ _
        (insert-IsOwned id st c _ refl refl refl o) (insert-IsOwned id st c _ refl refl refl o)

  local_close-Keeps :
      (id : ℕ) (e : Option Error) (c : Session A) → IsOwned c → IsOwned (local_close id e c).1
  unfolding local_close
  local_close-Keeps id e c o =
      IsSmaller-IsOwned c _ (close_found-IsSmaller id e (find id c.streams) c) o

  keep_found-Keeps : (id : ℕ) (st : Option (Stream A)) → Keeps (keep_found s id st)
  unfolding Keeps keep_found IsOwned
  keep_found-Keeps id none c o = o
  keep_found-Keeps id (some st) c o = o

  dispatch-Keeps :
      (id status option network : ℕ) (destination : A)
      → Keeps (dispatch s id status option network destination)
  unfolding Keeps dispatch
  dispatch-Keeps id status option network destination c o =
      if_IsOwned (status == 1) _ _ (open_stream-Keeps id network destination c o) (
        if_IsOwned (status == 2) _ _ (keep_found-Keeps id (find id c.streams) c o) (
          if_IsOwned (status == 3) _ _
            (local_close-Keeps id (if bit_and option 2 == 2 then some remote_closed else none) c o)
            (if_IsOwned (status == 4) _ _ o o)))

  write_packet-Shrinks :
      (k : ℕ) (p : Bytes) (addr : Option Bytes) → Shrinks A (write_packet s k p addr)
  unfolding write_packet
  write_packet-Shrinks k p none =
      Shrinks-bind A _ _ (Shrinks-pipe A k (write_pipe (put_u16 (length p)))) λ x.
        Shrinks-bind A _ _ (Shrinks-pipe A k (write_pipe p))
          λ y. Shrinks-fail A (Unit {0}) bad_address
  write_packet-Shrinks k p (some b) =
      Shrinks-bind A _ _ (Shrinks-pipe A k (write_pipe (put_u16 (length p)))) λ x.
        Shrinks-bind A _ _ (Shrinks-pipe A k (write_pipe p)) λ y. Shrinks-pipe A k (write_pipe b)

  recv_to-Shrinks :
      (st : Stream A) (p : Bytes) (destination : A) → Shrinks A (recv_to s st p destination)
  unfolding recv_to Shrinks
  recv_to-Shrinks st p destination c =
      elim (st.network == network_tcp)
        as (λ b. IsSmaller c (
          state_of (
            (if b
                then on_pipe st.pipe (write_pipe p)
                else write_packet s st.pipe p (s.write_addr destination))
              c))) [
                | true ↦ Shrinks-pipe A st.pipe (write_pipe p) c
                | false ↦ write_packet-Shrinks st.pipe p (s.write_addr destination) c
              ]

  after_write :
      (id : ℕ) (c : Session A) (r : Outcome (Session A) (Unit {0}))
      → IsSmaller c (state_of r)
      → IsSmaller c (
          state_of {A = Unit {0}}
            (elim r [ ok x c' ↦ ok tt c' | err e c' ↦ close_stream id (some e) c' ]))
  after_write id c (ok x c') h = h
  after_write id c (err e c') h =
      IsSmaller-trans c c' _ h (unfold Shrinks in Shrinks-close A id (some e) c')

  deliver-Shrinks :
      (id : ℕ) (st : Stream A) (p : Bytes) (destination : A)
      → Shrinks A (deliver s id st p destination)
  unfolding deliver Shrinks
  deliver-Shrinks id st p destination c =
      let to = if s.is_valid destination then destination else st.destination in
      after_write id c (recv_to s st p to c) (recv_to-Shrinks st p to c)

  receive_data-Shrinks :
      (id : ℕ) (st : Option (Stream A)) (destination : A) (len : ℕ)
      → Shrinks A (receive_data s id st destination len)
  unfolding receive_data
  receive_data-Shrinks id none destination len = Shrinks-conn A (discard len)
  receive_data-Shrinks id (some st) destination len =
      Shrinks-bind A _ _ (Shrinks-conn A (read_full len)) λ p. deliver-Shrinks id st p destination

  receive_length-Shrinks :
      (id : ℕ) (st : Option (Stream A)) (destination : A) (len : ℕ) (b : Bool)
      → Shrinks A (if b then pure tt else receive_data s id st destination len)
  receive_length-Shrinks id st destination len true = Shrinks-pure A tt
  receive_length-Shrinks id st destination len false = receive_data-Shrinks id st destination len

  receive_option-Shrinks :
      (id : ℕ) (st : Option (Stream A)) (destination : A) (option : ℕ)
      → Shrinks A (receive_option s id st destination option)
  unfolding receive_option Shrinks
  receive_option-Shrinks id st destination option c =
      elim (bit_and option 1 == 1)
        as (λ b. IsSmaller c (
          state_of (
            (if b
                then (do
                  len ← zoom conn_lens read_u16
                  if len == 0 then pure tt else receive_data s id st destination len)
                else pure tt)
              c))) [
                | true ↦
                    Shrinks-bind A (zoom conn_lens read_u16)
                      (λ len. if len == 0 then pure tt else receive_data s id st destination len)
                      (Shrinks-conn A read_u16)
                      (λ len. receive_length-Shrinks id st destination len (len == 0)) c
                | false ↦ IsSmaller-refl c
              ]

  recv-Keeps : Keeps (recv s)
  unfolding recv
  recv-Keeps = Keeps-bind _ _ (Shrinks-Keeps _ (Shrinks-conn A read_u16)) λ len.
      Keeps-bind _ _ (Shrinks-Keeps _ (Shrinks-conn A read_u16)) λ id.
        Keeps-bind _ _ (Shrinks-Keeps _ (Shrinks-conn A read_byte)) λ status.
          Keeps-bind _ _ (Shrinks-Keeps _ (Shrinks-conn A read_byte)) λ option.
            Keeps-bind _ _ (Shrinks-Keeps _ (Shrinks-conn A (read_metadata s len)))
              λ (network, destination).
                Keeps-bind _ _ (dispatch-Keeps id status option network destination)
                  λ st. Shrinks-Keeps _ (receive_option-Shrinks id st destination option)

  -- recv, on every frame, whether it ends well or in an error, leaves each id with a pipe of its own:
  -- the pipes of two registered ids differ, and no id has a pipe that is yet to be made.
  pub recv-IsOwned : (c : Session A) → IsOwned c → IsOwned (state_of (recv s c))
  unfolding Keeps
  recv-IsOwned c o = recv-Keeps c o
