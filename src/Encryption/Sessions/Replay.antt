-- ===== src/Encryption/Sessions/Replay.antt =====
-- A key that came with a ticket once is refused from then on (vless/encryption/service.go: Handshake,
-- loopCleanLegacySessions).
use sing_vmess.Base.{
  ℕ, ◌-◌, ◌/◌, ◌≡◌, refl, sym, subst, ◌⊎◌, inl, inr, false, Option, none, some, ◌∷◌, ltb, ◌==◌,
  Bool-cases, ok, err, ok-ne-err, ok-state, state_of, replay, ticket_expired, Bytes,
}
use sing_vmess.Vless.Service.Users.{look_up, same_bytes}
use sing_vmess.Vless.Service.Users.Lookup.{same_bytes_refl}
use sing_vmess.Encryption.Sessions.Used.{IsUsed, IsUsed-same, IsUsed-without, IsUsed-use_session}
use sing_vmess.Encryption.Sessions.{
  ServiceSession, Sessions, delete, clean, give_ticket, member, use_session, take_ticket,
}

-- What happens to the table: a turn of the cleaning, a ticket that is given, and one that comes back.
pub data Event : Type 0 where
  cleaned : ℕ → Event
  gave : ℕ → ℕ → ℕ → Bytes → Bytes → Event
  took : Bytes → Bytes → Event

pub apply : Event → Sessions → Sessions
apply (cleaned now) s = clean now s
apply (gave now longest seconds ticket pfs_key) s = give_ticket now longest seconds ticket pfs_key s
apply (took ticket nfs_key) s = state_of (take_ticket ticket nfs_key s)

-- An event that does not give the ticket again: tickets are random.
unfoldable pub Avoids : Bytes → Event → Type 0
Avoids ticket (cleaned now) = Unit {0}
Avoids ticket (gave now longest seconds other pfs_key) = same_bytes other ticket ≡ false
Avoids ticket (took other nfs_key) = Unit {0}

-- A history of the table in which the ticket is not given again.
pub data Reaches (ticket : Bytes) : Sessions → Sessions → Type 0 where
  here : {s : Sessions} → Reaches ticket s s
  step :
      {s t : Sessions} (e : Event)
      → Avoids ticket e
      → Reaches ticket (apply e s) t
      → Reaches ticket s t

IsUsed-apply :
    (ticket key : Bytes) (e : Event) (s : Sessions)
    → Avoids ticket e
    → IsUsed ticket key s.sessions
    → IsUsed ticket key (apply e s).sessions
unfolding apply Avoids
IsUsed-apply ticket key (cleaned now) s avoids used =
    unfold clean in
    IsUsed-without ticket key (look_up ◌==◌ s.lasts (now / 60))
      (record s { lasts = delete ◌==◌ (now / 60 - 1) (delete ◌==◌ (now / 60) s.lasts) }) used
IsUsed-apply ticket key (gave now longest seconds other pfs_key) s avoids used =
    elim (Bool-cases (ltb 0 seconds)) [
      | inl kept ↦
          unfold give_ticket in
          rw kept (IsUsed-same ticket key s.sessions _ (unfold look_up in rw avoids refl) used)
      | inr none_kept ↦ unfold give_ticket in rw none_kept used
    ]
IsUsed-apply ticket key (took other nfs_key) s avoids used =
    unfold take_ticket in
    IsUsed-use_session ticket key other nfs_key s (look_up same_bytes s.sessions other) refl used

IsUsed-Reaches :
    (ticket key : Bytes) {s t : Sessions}
    → Reaches ticket s t
    → IsUsed ticket key s.sessions
    → IsUsed ticket key t.sessions
IsUsed-Reaches ticket key here used = used
IsUsed-Reaches ticket key (step e avoids more) used =
    IsUsed-Reaches ticket key more (IsUsed-apply ticket key e _ avoids used)

take_ticket-IsUsed :
    (ticket key : Bytes) (s : Sessions)
    → IsUsed ticket key s.sessions
    → (take_ticket ticket key s ≡ err ticket_expired s) ⊎ (take_ticket ticket key s ≡ err replay s)
unfolding IsUsed take_ticket use_session
take_ticket-IsUsed ticket key s (inl gone) = inl (rw gone refl)
take_ticket-IsUsed ticket key s (inr (x, found, used)) = inr (rw (found, used) refl)

taken-IsUsed :
    (ticket key united : Bytes) (s s' : Sessions) (o : Option ServiceSession)
    → use_session ticket key o s ≡ ok united s'
    → IsUsed ticket key s'.sessions
unfolding use_session
taken-IsUsed ticket key united s s' none e = absurd (ok-ne-err (sym e))
taken-IsUsed ticket key united s s' (some x) e = elim (Bool-cases (member key x.nfs_keys)) [
  | inl replayed ↦ absurd (ok-ne-err (sym (rw replayed at e)))
  | inr new ↦
      subst (λ z. IsUsed ticket key z.sessions) (ok-state (rw new at e))
        (unfold IsUsed look_up member in
          inr (
            record x { nfs_keys = key ∷ x.nfs_keys },
            rw (same_bytes_refl ticket) refl,
            rw (same_bytes_refl key) refl,
          ))
]

-- A key that a ticket was taken with once is not taken with it again: after any history of the table, in which
-- the ticket is not given a second time, with tickets given, taken with this and other keys, and cleaned away, the
-- same key with the same ticket is an error, an expired ticket or a replay, and the table stays as it is.
pub take_ticket-Reaches :
    (ticket key united : Bytes) (s s' t : Sessions)
    → take_ticket ticket key s ≡ ok united s'
    → Reaches ticket s' t
    → (take_ticket ticket key t ≡ err ticket_expired t) ⊎ (take_ticket ticket key t ≡ err replay t)
take_ticket-Reaches ticket key united s s' t taken history = take_ticket-IsUsed ticket key t (
    IsUsed-Reaches ticket key history (
      taken-IsUsed ticket key united s s' (look_up same_bytes s.sessions ticket)
        (unfold take_ticket in taken)))
