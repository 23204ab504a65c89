-- ===== src/Mux/Race/Flushing.antt =====
-- When the session's writer is flushed (mux.go: syncWrite, syncWritePacket, syncClose).
use sing_vmess.Base.{
  ℕ, ◌+◌, ◌-◌, ◌%◌, ◌^◌, ◌≤◌, ◌<◌, ◌≡◌, refl, sym, ap, ◌∙◌, subst, inl, inr, true, false, List, [],
  ◌∷◌, ◌++◌, append-nil, append_assoc, arith, leb, ◌==◌, le→leb, Bool-cases, length, take, drop,
  length-append, take-append-drop, All, concat, Bytes, write, open_sink, write_with,
}
use sing_vmess.Mux.Race.{
  buffer_size, BufWriter, flushed, flush_held, flush, passed, spill, overrun, store, store_all,
  Writers, arrive, settle, locked_write, remove_at, nth, enter_as, enter, Event, arrives, enters,
  step, run,
}

-- A writer without an error, over a connection that takes every write.
abbrev pub working : Bytes → Bytes → BufWriter
working sent held = record { buffered = held; failed = false; conn = open_sink sent }

-- A working writer that has been given the bytes `all`.
HasTaken : Bytes → BufWriter → Type 0
HasTaken all w = (sent held : Bytes) × (w ≡ working sent held) × (sent ++ held ≡ all)

flush-working : (sent held : Bytes) → flush (working sent held) ≡ working (sent ++ held) []
unfolding flush flush_held flushed write write_with
flush-working sent [] = ap (λ s. working s []) (sym (append-nil sent))
flush-working sent (b ∷ bs) = refl

spill-working : (sent p : Bytes) → HasTaken (sent ++ p) (spill p (working sent []))
unfolding HasTaken spill passed write write_with
spill-working sent p = elim (Bool-cases (leb (length p) buffer_size)) [
  | inl fits ↦ (sent, p, rw fits refl, refl)
  | inr long ↦ (sent ++ p, [], rw long refl, append-nil _)
]

join : (s h x y p : Bytes) → x ++ y ≡ p → (s ++ (h ++ x)) ++ y ≡ (s ++ h) ++ p
join s h x y p e =
    append_assoc s (h ++ x) y
    ∙ ap (λ r. s ++ r) (append_assoc h x y ∙ ap (λ r. h ++ r) e)
    ∙ sym (append_assoc s h p)

overrun-working :
    (sent held p : Bytes) → HasTaken ((sent ++ held) ++ p) (overrun held p (working sent held))
unfolding overrun
overrun-working sent [] p =
    unfold HasTaken passed write write_with in
    (sent ++ p, [], refl, append-nil _ ∙ ap (λ s. s ++ p) (sym (append-nil sent)))
overrun-working sent (b ∷ bs) p =
    let free = buffer_size - length (b ∷ bs) in
    rw (flush-working sent ((b ∷ bs) ++ take free p)) (
      subst
        (λ all. HasTaken all (spill (drop free p) (working (sent ++ ((b ∷ bs) ++ take free p)) [])))
        (join sent (b ∷ bs) (take free p) (drop free p) p (take-append-drop free p))
        (spill-working (sent ++ ((b ∷ bs) ++ take free p)) (drop free p)))

store-working : (sent held p : Bytes) → HasTaken ((sent ++ held) ++ p) (store p (working sent held))
unfolding store
store-working sent held p = elim (Bool-cases (leb (length p) (buffer_size - length held))) [
  | inl fits ↦ rw fits (unfold HasTaken in (sent, held ++ p, refl, sym (append_assoc sent held p)))
  | inr long ↦ rw long (overrun-working sent held p)
]

store-HasTaken : (all p : Bytes) (w : BufWriter) → HasTaken all w → HasTaken (all ++ p) (store p w)
unfolding HasTaken
store-HasTaken all p w (sent, held, e, q) =
    unfold HasTaken in
    subst (λ v. HasTaken (all ++ p) (store p v)) (sym e)
      (subst (λ x. HasTaken (x ++ p) (store p (working sent held))) q (store-working sent held p))

store_all-HasTaken :
    (ps : List Bytes) (all : Bytes) (w : BufWriter)
    → HasTaken all w
    → HasTaken (all ++ concat ps) (store_all ps w)
unfolding store_all
store_all-HasTaken [] all w h = subst (λ x. HasTaken x w) (sym (append-nil all)) h
store_all-HasTaken (p ∷ ps) all w h =
    subst (λ x. HasTaken x (store_all ps (store p w))) (append_assoc all p (concat ps))
      (store_all-HasTaken ps (all ++ p) (store p w) (store-HasTaken all p w h))

-- Frames that fit the buffer stay in it.
pub store_all_fits :
    (ps : List Bytes) (sent held : Bytes)
    → length (held ++ concat ps) ≤ buffer_size
    → store_all ps (working sent held) ≡ working sent (held ++ concat ps)
unfolding store_all store
store_all_fits [] sent held h = ap (working sent) (sym (append-nil held))
store_all_fits (p ∷ ps) sent held h =
    let fits : leb (length p) (buffer_size - length held) ≡ true =
      le→leb _ _
        (omega (arith, length-append held (p ++ concat ps), length-append p (concat ps))) in
    rw fits (
      store_all_fits ps sent (held ++ p)
        (subst (λ x. length x ≤ buffer_size) (sym (append_assoc held p (concat ps))) h)
      ∙ ap (working sent) (append_assoc held p (concat ps)))

-- The schedules in which the writers get the mutex in the order of their tickets.
unfoldable pub IsFifo : List Event → Type 0
IsFifo = All (λ e. elim e [ arrives frame ↦ Unit {0} | enters k ↦ k ≡ 0 ])

-- Nobody waits and nothing is held back, or the last one who waits has the newest ticket.
EndsWith : ℕ → Bytes → List (ℕ × List Bytes) → Type 0
EndsWith race held [] = held ≡ []
EndsWith race held ((t, f) ∷ []) = t ≡ race
EndsWith race held (x ∷ y ∷ xs) = EndsWith race held (y ∷ xs)

-- The bytes of the writers that wait, and of those that a schedule brings.
pending : List (ℕ × List Bytes) → Bytes
pending [] = []
pending (x ∷ xs) = concat x.1 ++ pending xs

unfoldable pub arriving : List Event → Bytes
arriving [] = []
arriving (arrives f ∷ es) = concat f ++ arriving es
arriving (enters k ∷ es) = arriving es

-- The writer works, has taken all bytes but those that wait, and is flushed by the last who waits.
IsOnTrack : Bytes → Writers → Type 0
unfolding HasTaken EndsWith pending
IsOnTrack all w =
    (taken : Bytes) × HasTaken taken w.writer
    × (taken ++ pending w.waiting ≡ all)
    × EndsWith w.race w.writer.buffered w.waiting

-- Nobody waits, and the writer holds nothing.
abbrev pub idle : ℕ → Bytes → Writers
idle race sent = record { race = race; waiting = []; writer = working sent [] }

newest_flushes :
    (t : ℕ) (q : List Bytes) (sent : Bytes) (xs : List (ℕ × List Bytes))
    → locked_write t q (record { race = t; waiting = xs; writer = working sent [] })
      ≡ record { race = t; waiting = xs; writer = working (sent ++ concat q) [] }
unfolding locked_write settle HasTaken
newest_flushes t q sent xs =
    let (s, h, e, all) =
      store_all-HasTaken q sent (working sent []) (sent, [], refl, append-nil sent) in
    let same : (t == t) ≡ true = ground arith in
    rw (e, same)
      (ap (λ v. record { race = t; waiting = xs; writer = v })
        (flush-working s h ∙ ap (λ x. working x []) all))

older_holds :
    (t race : ℕ) (p : List Bytes) (sent : Bytes) (xs : List (ℕ × List Bytes))
    → (t == race) ≡ false
    → length (concat p) ≤ buffer_size
    → locked_write t p (record { race = race; waiting = xs; writer = working sent [] })
      ≡ record { race = race; waiting = xs; writer = working sent (concat p) }
unfolding locked_write settle
older_holds t race p sent xs other fits = rw (store_all_fits p sent [] fits, other) refl

-- Two writers that get the mutex in the other order leave a frame behind, if it fits the buffer. The
-- second one, with the newer ticket, flushes first; the first one then writes its frame and does not
-- flush it, since its ticket is not the newest: nobody waits, and the whole frame is held in
-- the buffer. A connection that takes every write is assumed, and an idle writer at the start.
pub run_reverse_held :
    (p q : List Bytes) (race : ℕ) (sent : Bytes)
    → race < 2 ^ 32
    → length (concat p) ≤ buffer_size
    → ((run (arrives p ∷ arrives q ∷ enters 1 ∷ enters 0 ∷ []) (idle race sent)).waiting ≡ [])
      × ((run (arrives p ∷ arrives q ∷ enters 1 ∷ enters 0 ∷ []) (idle race sent)).writer
          ≡ working (sent ++ concat q) (concat p))
unfolding run step arrive enter enter_as nth remove_at
run_reverse_held p q race sent h fits =
    let t = (race + 1) % 2 ^ 32 in
    let other : (t == (t + 1) % 2 ^ 32) ≡ false = ground arith in
    rw (newest_flushes ((t + 1) % 2 ^ 32) q sent ((t, p) ∷ []))
      (rw (older_holds t ((t + 1) % 2 ^ 32) p (sent ++ concat q) [] other fits) (refl, refl))
