-- ===== src/Mux/Session/Streams/Delivery.antt =====
-- What the server's session (mux.go) does with frames of data.
use sing_vmess.Base.{
  ℕ, zero, suc, ◌<◌, ◌≡◌, refl, sym, ap, ◌∙◌, ◌≢◌, inl, inr, Bool, true, false, none, some, List,
  [], ◌∷◌, ◌++◌, map, append-nil, append_assoc, arith, ◌==◌, if◌then◌else◌, ==_iff, Bool-cases,
  length, All, concat, ok, Prog, pure, ◌>>◌, Bytes, IsU16, put_u16, u16-put, read_full-append,
}
use sing_vmess.Address.{Serializer}
use sing_vmess.Mux.Frame.{frame, network_tcp}
use sing_vmess.Mux.Session.{
  Stream, Session, Pipe, find, update, on_pipe, keep_found, dispatch, recv_to, deliver,
  receive_data, receive_option, recv, read_metadata, write_pipe,
}
use sing_vmess.Mux.Session.Streams.{IsOwned}

-- The bytes of the frames for one id, in their order.
pub payloads : ℕ → List (ℕ × Bytes) → Bytes
payloads id [] = []
payloads id ((j, p) ∷ fs) = if j == id then p ++ payloads id fs else payloads id fs

write_pipe_open :
    (p : Bytes) (q : Pipe)
    → q.closed ≡ none
    → q.reader_gone ≡ false
    → write_pipe p q ≡ ok tt (record q { written = q.written ++ p })
unfolding write_pipe
write_pipe_open p q h g = ground arith

if-append : (b : Bool) (p q : Bytes) → (if b then p else []) ++ q ≡ (if b then p ++ q else q)
if-append true p q = refl
if-append false p q = refl

module _ {A : Type 0} where
  -- The session after a frame of the payload `p` for the stream `st`.
  delivered : Stream A → Bytes → Bytes → Session A → Session A
  delivered st p rest c = record c {
    conn = rest;
    pipes =
        update c.pipes st.pipe
          (record (c.pipes st.pipe) { written = (c.pipes st.pipe).written ++ p });
  }

  -- The id is open: a stream of TCP whose pipe is open on both ends.
  unfoldable pub IsOpen : Session A → ℕ → Type 0
  IsOpen c id =
      (st : Stream A) × (find id c.streams ≡ some st)
      × (st.network ≡ network_tcp)
      × ((c.pipes st.pipe).closed ≡ none)
      × ((c.pipes st.pipe).reader_gone ≡ false)

  delivered-IsOpen :
      (st : Stream A) (p rest : Bytes) (c : Session A) (id : ℕ)
      → IsOpen c id
      → IsOpen (delivered st p rest c) id
  unfolding IsOpen delivered update
  delivered-IsOpen st p rest c id (s, f, n, k, g) = (s, f, n, ground arith, ground arith)

  delivered-IsOwned :
      (st : Stream A) (p rest : Bytes) (c : Session A) → IsOwned c → IsOwned (delivered st p rest c)
  unfolding delivered IsOwned
  delivered-IsOwned st p rest c o = o

module _ {A : Type 0} (s : Serializer A) where
  receive_data-frame :
      (id : ℕ) (p rest : Bytes) (st : Stream A) (destination : A) (c : Session A)
      → c.conn ≡ p ++ rest
      → st.network ≡ network_tcp
      → (c.pipes st.pipe).closed ≡ none
      → (c.pipes st.pipe).reader_gone ≡ false
      → receive_data s id (some st) destination (length p) c ≡ ok tt (delivered st p rest c)
  unfolding receive_data deliver recv_to on_pipe delivered write_pipe update
  receive_data-frame id p rest st destination c hc ht ho hr =
      rw
        (hc, read_full-append (length p) p rest refl, ht, write_pipe_open p (c.pipes st.pipe) ho hr)

  receive_option-frame :
      (id b : ℕ) (p rest : Bytes) (st : Stream A) (destination : A) (c : Session A)
      → IsU16 (length (b ∷ p))
      → c.conn ≡ put_u16 (length (b ∷ p)) ++ ((b ∷ p) ++ rest)
      → st.network ≡ network_tcp
      → (c.pipes st.pipe).closed ≡ none
      → (c.pipes st.pipe).reader_gone ≡ false
      → receive_option s id (some st) destination 1 c ≡ ok tt (delivered st (b ∷ p) rest c)
  unfolding receive_option
  receive_option-frame id b p rest st destination c hlen hc ht ho hr =
      let more : (suc (length p) == 0) ≡ false = ground arith in
      rw (hc, u16-put (length (b ∷ p)) hlen, more)
        (unfold delivered in
          receive_data-frame id (b ∷ p) rest st destination (record c { conn = (b ∷ p) ++ rest })
            refl ht ho hr)

  recv-frame :
      (id b : ℕ) (p rest : Bytes) (st : Stream A) (c : Session A)
      → IsU16 id
      → IsU16 (length (b ∷ p))
      → c.conn ≡ frame id (b ∷ p) ++ rest
      → find id c.streams ≡ some st
      → st.network ≡ network_tcp
      → (c.pipes st.pipe).closed ≡ none
      → (c.pipes st.pipe).reader_gone ≡ false
      → recv s c ≡ ok tt (delivered st (b ∷ p) rest c)
  unfolding recv read_metadata dispatch keep_found
  recv-frame id b p rest st c hid hlen hc hf ht ho hr =
      let after = record c { conn = put_u16 (length (b ∷ p)) ++ ((b ∷ p) ++ rest) } in
      rw (hc, u16-put id hid, hf)
        (unfold delivered in receive_option-frame id b p rest st s.empty after hlen refl ht ho hr)

  -- recvLoop, for a number of frames.
  pub recvs : ℕ → Prog (Session A) (Unit {0})
  recvs zero = pure tt
  recvs (suc n) = recv s >> recvs n

  -- A frame of data that a peer may send: its id and its length fit, it has a byte, and its id is open.
  unfoldable pub IsFrameFor : Session A → ℕ × Bytes → Type 0
  IsFrameFor c (id, p) = IsU16 id × (0 < length p) × IsU16 (length p) × IsOpen c id

  delivered-frames :
      (st : Stream A) (p rest : Bytes) (c : Session A) (fs : List (ℕ × Bytes))
      → All (IsFrameFor c) fs
      → All (IsFrameFor (delivered st p rest c)) fs
  unfolding IsFrameFor
  delivered-frames st p rest c [] h = h
  delivered-frames st p rest c ((id, q) ∷ fs) ((a, b, d, o), h) =
      ((a, b, d, delivered-IsOpen st p rest c id o), delivered-frames st p rest c fs h)

  -- The frame of (id, p), in the pipe of any id.
  delivered-written :
      (id j : ℕ) (st st' : Stream A) (p rest : Bytes) (c : Session A)
      → IsOwned c
      → find id c.streams ≡ some st
      → find j c.streams ≡ some st'
      → ((delivered st p rest c).pipes st'.pipe).written
        ≡ (c.pipes st'.pipe).written ++ (if id == j then p else [])
  unfolding delivered update IsOwned
  delivered-written id j st st' p rest c (b, d) hf hf' = elim (Bool-cases (id == j)) [
    | inl e ↦
        let same : id ≡ j = (==_iff id j).0 e in
        let pipes : st'.pipe ≡ st.pipe = ground arith in ground arith
    | inr e ↦
        let other : st'.pipe ≢ st.pipe = λ q. ground (arith, d id j st st' hf hf' (sym q)) in
        ground (arith, append-nil ((c.pipes st'.pipe).written))
  ]

  recvs-frames :
      (fs : List (ℕ × Bytes)) (rest : Bytes) (c : Session A)
      → IsOwned c
      → All (IsFrameFor c) fs
      → c.conn ≡ concat (map (λ f. frame f.0 f.1) fs) ++ rest
      → (c' : Session A) × (recvs (length fs) c ≡ ok tt c')
        × (c'.conn ≡ rest)
        × ((j : ℕ) (st : Stream A)
            → find j c.streams ≡ some st
            → (c'.pipes st.pipe).written ≡ (c.pipes st.pipe).written ++ payloads j fs)
  unfolding recvs IsFrameFor payloads IsOpen
  recvs-frames [] rest c o h hc =
      (c, refl, hc, λ j st f. sym (append-nil ((c.pipes st.pipe).written)))
  recvs-frames ((id, []) ∷ fs) rest c o ((a, b, d, x), h) hc = absurd (omega arith)
  recvs-frames ((id, v ∷ p) ∷ fs) rest c o ((a, b, d, (st, hf, ht, ho, hr)), h) hc =
      let more = concat (map (λ f. frame f.0 f.1) fs) ++ rest in
      let c1 = delivered st (v ∷ p) more c in
      let first : recv s c ≡ ok tt c1 =
        recv-frame id v p more st c a d (hc ∙ append_assoc (frame id (v ∷ p)) _ rest) hf ht ho hr in
      let (c', run, left, got) =
        recvs-frames fs rest c1 (delivered-IsOwned st (v ∷ p) more c o)
          (delivered-frames st (v ∷ p) more c fs h) (unfold delivered in refl) in
      (
        c',
        rw first run,
        left,
        λ j st' f.
            got j st' (unfold delivered in f)
            ∙ ap (λ x. x ++ payloads j fs) (delivered-written id j st st' (v ∷ p) more c o hf f)
            ∙ append_assoc ((c.pipes st'.pipe).written) (if id == j then v ∷ p else [])
                (payloads j fs)
            ∙ ap (λ x. (c.pipes st'.pipe).written ++ x)
                (if-append (id == j) (v ∷ p) (payloads j fs)),
      )

  -- Frames of data for any number of open streams of TCP, mixed in any order, are taken apart by recv:
  -- each frame is taken, the bytes after the last one are left, and the pipe of any id of the map has got
  -- exactly the payloads of its own frames, in their order. The ids have pipes of their own to begin with.
  pub recvs-demultiplex :
      (fs : List (ℕ × Bytes)) (rest : Bytes) (c : Session A) (j : ℕ) (st : Stream A)
      → IsOwned c
      → All (IsFrameFor c) fs
      → c.conn ≡ concat (map (λ f. frame f.0 f.1) fs) ++ rest
      → find j c.streams ≡ some st
      → (c' : Session A) × (recvs (length fs) c ≡ ok tt c')
        × (c'.conn ≡ rest)
        × ((c'.pipes st.pipe).written ≡ (c.pipes st.pipe).written ++ payloads j fs)
  recvs-demultiplex fs rest c j st o h hc f =
      let (c', run, left, got) = recvs-frames fs rest c o h hc in (c', run, left, got j st f)
