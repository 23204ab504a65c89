-- ===== src/Encryption/Xor/RoundTrip.antt =====
-- A reader unmasks what a writer masked, however the two sides cut the stream into calls.
use sing_vmess.Base.{
  ℕ, suc, ◌+◌, ◌<◌, bit_xor, ◌≡◌, refl, ap, ◌∙◌, List, [], ◌∷◌, ◌++◌, arith, length, length-append,
  concat, bit_xor_cancel, Bytes,
}
use sing_vmess.Encryption.Xor.{
  Direction, outgoing, incoming, clear, Masker, write_bytes, read_bytes,
}
use sing_vmess.Encryption.Xor.Bytewise.{take_header, step, run, run-append, loop-run}

take_header-length :
    (m : Masker) (b : ℕ) → length m.header < 5 → length (take_header m b).header < 5
take_header-length m b h = ground (arith, length-append m.header (b ∷ []))

module _ (ks : ℕ → ℕ) where
  -- A header is never longer than four bytes between calls.
  run-length :
      (d : Direction) (p : Bytes) (m : Masker)
      → length m.header < 5
      → length (run ks d p m).1.header < 5
  unfolding run
  run-length d [] m h = h
  run-length d (b ∷ bs) m h =
      run-length d bs (step ks d b m).1
        (ground (arith, take_header-length m (clear d b (bit_xor b (ks m.used)))))

  length-run : (d : Direction) (p : Bytes) (m : Masker) → length (run ks d p m).0 ≡ length p
  unfolding run
  length-run d [] m = refl
  length-run d (b ∷ bs) m = ap suc (length-run d bs (step ks d b m).1)

  -- A byte masked and unmasked from the same state is the byte, and the states stay the same.
  step-step :
      (b : ℕ) (m : Masker)
      → (step ks incoming (step ks outgoing b m).0 m ≡ (b, (step ks outgoing b m).1))
  step-step b m = ground (arith, bit_xor_cancel b (ks m.used))

  run-run :
      (p : Bytes) (m : Masker)
      → run ks incoming (run ks outgoing p m).0 m ≡ (p, (run ks outgoing p m).1)
  unfolding run
  run-run [] m = refl
  run-run (b ∷ bs) m = rw (step-step b m, run-run bs (step ks outgoing b m).1)

  -- One call for each slice: the bytes that reach the connection, or that the caller gets.
  pub write_calls : List Bytes → Masker → Bytes × Masker
  write_calls [] m = ([], m)
  write_calls (p ∷ ps) m =
      let (b, m') = write_bytes ks p m in let (bs, m'') = write_calls ps m' in (b ++ bs, m'')

  pub read_calls : List Bytes → Masker → Bytes × Masker
  read_calls [] m = ([], m)
  read_calls (p ∷ ps) m =
      let (b, m') = read_bytes ks p m in let (bs, m'') = read_calls ps m' in (b ++ bs, m'')

  write_calls-run :
      (ps : List Bytes) (m : Masker)
      → length m.header < 5
      → write_calls ps m ≡ run ks outgoing (concat ps) m
  unfolding write_calls write_bytes
  write_calls-run [] m h = unfold run in refl
  write_calls-run (p ∷ ps) m h = rw (
    loop-run ks outgoing (length p + 1) p m.header m.used m.skip (omega arith) h,
    write_calls-run ps (run ks outgoing p m).1 (run-length outgoing p m h),
    run-append ks outgoing p (concat ps) m,
  )

  read_calls-run :
      (ps : List Bytes) (m : Masker)
      → length m.header < 5
      → read_calls ps m ≡ run ks incoming (concat ps) m
  unfolding read_calls read_bytes
  read_calls-run [] m h = unfold run in refl
  read_calls-run (p ∷ ps) m h = rw (
    loop-run ks incoming (length p + 1) p m.header m.used m.skip (omega arith) h,
    read_calls-run ps (run ks incoming p m).1 (run-length incoming p m h),
    run-append ks incoming p (concat ps) m,
  )

  -- A writer and a reader start in the same state, with at most four bytes of a header. Whatever slices
  -- `ps` the writer's calls take, and in whatever pieces `qs` the bytes arrive, the reader's calls give
  -- back the bytes of `ps`, and the two sides end in the same state.
  pub read_calls-write_calls :
      (ps qs : List Bytes) (m : Masker)
      → length m.header < 5
      → concat qs ≡ (write_calls ps m).0
      → ((read_calls qs m).0 ≡ concat ps) × ((read_calls qs m).1 ≡ (write_calls ps m).1)
  read_calls-write_calls ps qs m h e =
      let sent = write_calls-run ps m h in
      let received : read_calls qs m ≡ (concat ps, (write_calls ps m).1) =
        read_calls-run qs m h ∙ rw (e, sent) (run-run (concat ps) m) in
      (ap (λ (r : Bytes × Masker). r.0) received, ap (λ (r : Bytes × Masker). r.1) received)

  -- Write gives the connection as many bytes as it was given, in however many calls.
  pub length-write_calls :
      (ps : List Bytes) (m : Masker)
      → length m.header < 5
      → length (write_calls ps m).0 ≡ length (concat ps)
  length-write_calls ps m h = rw (write_calls-run ps m h) (length-run outgoing (concat ps) m)
