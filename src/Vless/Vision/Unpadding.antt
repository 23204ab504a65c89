-- ===== src/Vless/Vision/Unpadding.antt =====
-- unPadding takes off what padding puts on (vless/vision.go).
use sing_vmess.Base.{
  ℕ, zero, suc, ◌+◌, ◌≤◌, ◌<◌, ◌≡◌, refl, sym, ap, ◌∙◌, subst, ◌⊎◌, inl, inr, true, false, none,
  some, List, [], ◌∷◌, ◌++◌, append_assoc, arith, ◌==◌, if◌then◌else◌, ==_iff, length, take, drop,
  take_all, drop_all, All, concat, Bytes, IsU16, put_u16, u16-put,
}
use sing_vmess.Vless.Vision.{equal, Padder, padding_len, padding, Unpadder, enter_block}
use sing_vmess.Vless.Vision.Bytewise.{
  in_block, fill, eats, in_front, eats-content, eats-padding, eats-raw, eats-header,
}
use sing_vmess.Vless.Vision.Pieces.{unpad_all, unpad_all_first}

-- A block, as padding writes it, of a content and of its padding.
block : ℕ → Bytes → Bytes → Bytes
block command p f = command ∷ (put_u16 (length p) ++ (put_u16 (length f) ++ (p ++ f)))

-- An Unpadder between two blocks.
abbrev pub between : Bytes → ℕ → Unpadder
between user_uuid command = record {
  user_uuid = user_uuid;
  remaining = some (0, 0);
  current_command = command;
  header = [];
}

eats-block :
    (before command : ℕ) (uuid p f rest : Bytes)
    → (before == 1) ≡ false
    → IsU16 (length p)
    → IsU16 (length f)
    → eats (block command p f ++ rest) (between uuid before)
      ≡ in_front p (eats rest (between uuid command))
unfolding block
eats-block before command uuid p f rest other hp hf =
    let lengths = put_u16 (length p) ++ put_u16 (length f) in
    let got : fill (command ∷ lengths) (between uuid before)
        ≡ in_block (length p) (length f) (between uuid command) =
      unfold fill enter_block in rw (u16-put (length p) hp, u16-put (length f) hf) refl in
    eats-header command lengths ((p ++ f) ++ rest) (between uuid before) other (omega arith)
    ∙ ap (eats ((p ++ f) ++ rest)) got
    ∙ ap (λ b. eats b (in_block (length p) (length f) (between uuid command)))
        (append_assoc p f rest)
    ∙ eats-content p (f ++ rest) (length p) 0 (length f) (between uuid command) (omega arith)
    ∙ ap (in_front p) (eats-padding f rest (length f) 0 (between uuid command) (omega arith))

equal_refl : (xs : Bytes) → equal xs xs ≡ true
unfolding equal
equal_refl [] = refl
equal_refl (x ∷ xs) = ground (arith, equal_refl xs)

-- Buffers with the commands that they are padded with, and the bytes that follow without a padding: one buffer
-- at least, the command to end at the last one at most, and bytes behind it only if it has that command.
unfoldable pub IsRun : List (Bytes × ℕ) → Bytes → Type 0
IsRun [] raw = ⊥
IsRun ((p, k) ∷ []) raw = (k ≡ 1) ⊎ (raw ≡ [])
IsRun ((p, k) ∷ x ∷ ps) raw = ((k == 1) ≡ false) × IsRun (x ∷ ps) raw

unfoldable pub contents : List (Bytes × ℕ) → Bytes
contents [] = []
contents ((p, k) ∷ ps) = p ++ contents ps

unfoldable pub last_command : ℕ → List (Bytes × ℕ) → ℕ
last_command before [] = before
last_command before ((p, k) ∷ ps) = last_command k ps

eats-raw_after :
    (k : ℕ) (uuid raw : Bytes)
    → ((k ≡ 1) ⊎ (raw ≡ []))
    → eats raw (between uuid k) ≡ (raw, between uuid k)
eats-raw_after k uuid raw (inl end) = eats-raw raw (between uuid k) ((==_iff k 1).1 end)
eats-raw_after k uuid raw (inr none_left) = rw none_left (unfold eats in refl)

take_front : (n : ℕ) (xs ys : Bytes) → n ≤ length xs → take n (xs ++ ys) ≡ take n xs
take_front zero xs ys h = refl
take_front (suc n) [] ys h = absurd (omega arith)
take_front (suc n) (x ∷ xs) ys h = ap (λ r. x ∷ r) (take_front n xs ys (omega arith))

drop_front : (n : ℕ) (xs ys : Bytes) → n ≤ length xs → drop n (xs ++ ys) ≡ drop n xs ++ ys
drop_front zero xs ys h = refl
drop_front (suc n) [] ys h = absurd (omega arith)
drop_front (suc n) (x ∷ xs) ys h = drop_front n xs ys (omega arith)

-- A first piece that holds an id of `n` bytes.
cut_behind :
    (n : ℕ) (piece later id body : Bytes)
    → length id ≡ n
    → n ≤ length piece
    → piece ++ later ≡ id ++ body
    → (take n piece ≡ id) × (drop n piece ++ later ≡ body)
cut_behind n piece later id body size h whole = (
  sym (take_front n piece later h)
      ∙ ap (take n) whole
      ∙ subst (λ m. take m (id ++ body) ≡ id) size (take_all id body),
  sym (drop_front n piece later h)
      ∙ ap (drop n) whole
      ∙ subst (λ m. drop m (id ++ body) ≡ body) size (drop_all id body),
)

module _ (entropy : ℕ → ℕ → ℕ) (filler : ℕ → Bytes) where
  -- padding of some buffers, each with its command.
  unfoldable pub pad_each : List (Bytes × ℕ) → Padder → Bytes
  pad_each [] c = []
  pad_each ((p, k) ∷ ps) c = let (b, c') = padding entropy filler p k c in b ++ pad_each ps c'

  module _ (bounded : (n k : ℕ) → 0 < k → entropy n k < k)
      (filled : (n : ℕ) → length (filler n) ≡ n) where
    padding_len-lt : (n : ℕ) (c : Padder) → padding_len entropy n c < 1400
    unfolding padding_len
    padding_len-lt n c =
        let small = bounded c.drawn 500 (omega arith) in
        let large = bounded c.drawn 256 (omega arith) in ground arith

    padding-block :
        (p : Bytes) (k : ℕ) (c : Padder)
        → c.write_uuid ≡ false
        → (padding entropy filler p k c).0 ≡ block k p (filler (padding_len entropy (length p) c))
    unfolding padding block padding_len
    padding-block p k c h = rw (h, filled (padding_len entropy (length p) c)) refl

    padding_later :
        (p : Bytes) (k : ℕ) (c : Padder) → (padding entropy filler p k c).1.write_uuid ≡ false
    unfolding padding
    padding_later p k c = refl

    eats-padded :
        (p : Bytes) (k : ℕ) (c : Padder) (rest uuid : Bytes) (before : ℕ)
        → IsU16 (length p)
        → c.write_uuid ≡ false
        → (before == 1) ≡ false
        → eats ((padding entropy filler p k c).0 ++ rest) (between uuid before)
          ≡ in_front p (eats rest (between uuid k))
    eats-padded p k c rest uuid before hp later other =
        let n = padding_len entropy (length p) c in
        ap (λ b. eats (b ++ rest) (between uuid before)) (padding-block p k c later)
        ∙ eats-block before k uuid p (filler n) rest other hp
            (omega (arith, filled n, padding_len-lt (length p) c))

    eats-pad_each :
        (ps : List (Bytes × ℕ)) (c : Padder) (raw uuid : Bytes) (before : ℕ)
        → All (λ q. IsU16 (length q.0)) ps
        → IsRun ps raw
        → c.write_uuid ≡ false
        → (before == 1) ≡ false
        → eats (pad_each ps c ++ raw) (between uuid before)
          ≡ (contents ps ++ raw, between uuid (last_command before ps))
    unfolding pad_each IsRun contents last_command
    eats-pad_each [] c raw uuid before small run later other = absurd run
    eats-pad_each ((p, k) ∷ []) c raw uuid before (hp, small) run later other =
        let b = (padding entropy filler p k c).0 in
        ap (λ y. eats y (between uuid before)) (append_assoc b [] raw)
        ∙ eats-padded p k c raw uuid before hp later other
        ∙ ap (in_front p) (eats-raw_after k uuid raw run)
        ∙ ap (λ y. (y, between uuid k)) (sym (append_assoc p [] raw))
    eats-pad_each ((p, k) ∷ x ∷ ps) c raw uuid before (hp, small) (inner, run) later other =
        let (b, c') = padding entropy filler p k c in
        let rest = pad_each (x ∷ ps) c' in
        ap (λ y. eats y (between uuid before)) (append_assoc b rest raw)
        ∙ eats-padded p k c (rest ++ raw) uuid before hp later other
        ∙ ap (in_front p)
            (eats-pad_each (x ∷ ps) c' raw uuid k small run (padding_later p k c) inner)
        ∙ ap (λ y. (y, between uuid (last_command k (x ∷ ps))))
            (sym (append_assoc p (contents (x ∷ ps)) raw))

    pad_each_first :
        (ps : List (Bytes × ℕ)) (raw : Bytes) (c : Padder)
        → IsRun ps raw
        → c.write_uuid ≡ true
        → pad_each ps c ≡ c.user_uuid ++ pad_each ps (record c { write_uuid = false })
    unfolding pad_each padding padding_len IsRun
    pad_each_first [] raw c run first = absurd run
    pad_each_first ((p, k) ∷ ps) raw c run first =
        let n = padding_len entropy (length p) c in
        let b = k ∷ (put_u16 (length p) ++ (put_u16 n ++ (p ++ filler n))) in
        let rest = pad_each ps (record c { write_uuid = false; drawn = c.drawn + 1 }) in
        ap (λ w. ((if w then c.user_uuid else []) ++ b) ++ rest) first
        ∙ append_assoc c.user_uuid b rest

    -- unPadding takes off what padding puts on. Buffers of lengths that a header can hold are padded on a new
    -- connection, each with a command: to continue or to go direct, or for the last one also to end, and behind
    -- a last one that ends there may be bytes without a padding. Cut into pieces in any way, with at least
    -- 21 bytes in the first, they come out of the calls of a new unPadding as the bytes of the buffers and
    -- those behind them: no byte of a header or of a padding is left in, and none of a buffer is lost,
    -- whatever lengths the random source has given. unPadding is left between two blocks, with the command of
    -- the last.
    pub unpadding-padding :
        (ps : List (Bytes × ℕ)) (raw : Bytes) (c : Padder) (u : Unpadder) (piece : Bytes)
        (pieces : List Bytes)
        → All (λ q. IsU16 (length q.0)) ps
        → IsRun ps raw
        → length u.user_uuid ≡ 16
        → u.user_uuid ≡ c.user_uuid
        → c.write_uuid ≡ true
        → u.remaining ≡ none
        → u.header ≡ []
        → 21 ≤ length piece
        → piece ++ concat pieces ≡ pad_each ps c ++ raw
        → unpad_all (piece ∷ pieces) u
          ≡ (contents ps ++ raw, between u.user_uuid (last_command 0 ps))
    unpadding-padding ps raw c u piece pieces small run sixteen same first new empty long cut =
        let c' : Padder = record c { write_uuid = false } in
        let body = pad_each ps c' ++ raw in
        let whole : piece ++ concat pieces ≡ u.user_uuid ++ body =
          cut
          ∙ ap (λ b. b ++ raw) (pad_each_first ps raw c run first)
          ∙ append_assoc c.user_uuid (pad_each ps c') raw
          ∙ ap (λ i. i ++ body) (sym same) in
        let (id, rest) =
          cut_behind 16 piece (concat pieces) u.user_uuid body sixteen (omega arith) whole in
        unpad_all_first piece pieces u new (subst (λ h. length h < 5) (sym empty) (omega arith))
          long (ap (equal u.user_uuid) id ∙ equal_refl u.user_uuid)
        ∙ ap (λ b. eats b (in_block 0 0 (record u { current_command = 0 }))) rest
        ∙ ap
            (λ h. eats body (record {
              user_uuid = u.user_uuid;
              remaining = some (0, 0);
              current_command = 0;
              header = h;
            }))
            empty
        ∙ eats-pad_each ps c' raw u.user_uuid 0 small run refl (ground arith)
