-- ===== src/Mux/Session/Cleanup.antt =====
-- The end of a session (mux.go: cleanup).
use sing_vmess.Base.{
  ℕ, ◌≡◌, refl, inl, inr, Bool, true, false, Option, none, some, List, [], ◌∷◌, arith, ◌==◌,
  if◌then◌else◌, Bool-cases, Error, some-injective, some-ne-none,
}
use sing_vmess.Mux.Session.{Pipe, Stream, Session, find, update, close_pipe}

module _ {A : Type 0} where
  close_listed : Option Error → List (ℕ × Stream A) → (ℕ → Pipe) → ℕ → Pipe
  close_listed e [] pipes = pipes
  close_listed e ((id, st) ∷ m) pipes =
      close_listed e m (update pipes st.pipe (close_pipe e (pipes st.pipe)))

  -- cleanup.
  cleanup : Option Error → Session A → Session A
  unfolding close_listed
  cleanup e c = record c { pipes = close_listed e c.streams c.pipes }

IsEnded : Option (Option Error) → Type 0
IsEnded closed = (e : Option Error) × (closed ≡ some e)

IsClosed : Pipe → Type 0
unfolding IsEnded
IsClosed p = IsEnded p.closed

ended :
    (e : Option Error) (p : Pipe) (closed : Option (Option Error))
    → p.closed ≡ closed
    → IsClosed (close_pipe e p)
unfolding close_pipe IsClosed IsEnded
ended e p none unended = rw unended (e, refl)
ended e p (some d) over = rw over (d, refl)

close_pipe-IsClosed : (e : Option Error) (p : Pipe) → IsClosed (close_pipe e p)
close_pipe-IsClosed e p = ended e p p.closed refl

chosen : (b : Bool) (p q : Pipe) → IsClosed p → IsClosed q → IsClosed (if b then p else q)
chosen true p q h o = h
chosen false p q h o = o

update-IsClosed :
    (pipes : ℕ → Pipe) (k j : ℕ) (p : Pipe)
    → IsClosed p
    → IsClosed (pipes j)
    → IsClosed (update pipes k p j)
unfolding update
update-IsClosed pipes k j p h o = chosen (j == k) p (pipes j) h o

update_self : (pipes : ℕ → Pipe) (k : ℕ) (p : Pipe) → update pipes k p k ≡ p
unfolding update
update_self pipes k p = let same : (k == k) ≡ true = ground arith in rw same refl

module _ {A : Type 0} (e : Option Error) where
  close_listed-IsClosed :
      (m : List (ℕ × Stream A)) (pipes : ℕ → Pipe) (j : ℕ)
      → IsClosed (pipes j)
      → IsClosed (close_listed e m pipes j)
  unfolding close_listed
  close_listed-IsClosed [] pipes j h = h
  close_listed-IsClosed ((id, st) ∷ m) pipes j h =
      close_listed-IsClosed m _ j
        (update-IsClosed pipes st.pipe j _ (close_pipe-IsClosed e (pipes st.pipe)) h)

  close_listed-find :
      (m : List (ℕ × Stream A)) (pipes : ℕ → Pipe) (id : ℕ) (st : Stream A)
      → find id m ≡ some st
      → IsClosed (close_listed e m pipes st.pipe)
  unfolding close_listed find
  close_listed-find [] pipes id st found = absurd (some-ne-none found)
  close_listed-find ((id', st') ∷ m) pipes id st found = elim (Bool-cases (id' == id)) [
    | inl same ↦
        let at : st' ≡ st = some-injective (rw⁻¹ found (rw same refl)) in
        close_listed-IsClosed m _ st.pipe (
          rw⁻¹ at (
            rw (update_self pipes st'.pipe (close_pipe e (pipes st'.pipe)))
              (close_pipe-IsClosed e (pipes st'.pipe))))
    | inr other ↦ close_listed-find m _ id st (rw⁻¹ found (rw other refl))
  ]

  -- cleanup closes the pipe of every registered stream.
  cleanup-IsClosed :
      (c : Session A) (id : ℕ) (st : Stream A)
      → find id c.streams ≡ some st
      → IsClosed ((cleanup e c).pipes st.pipe)
  unfolding cleanup
  cleanup-IsClosed c id st found = close_listed-find c.streams c.pipes id st found
