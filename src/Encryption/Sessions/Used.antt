-- ===== src/Encryption/Sessions/Used.antt =====
-- Keys that have come with a ticket, in the map of the sessions (vless/encryption/service.go: Handshake,
-- loopCleanLegacySessions).
use sing_vmess.Base.{
  ◌≡◌, refl, sym, ◌∙◌, subst, ◌⊎◌, inl, inr, Bool, true, false, ◌||◌, Option, none, some, List, [],
  ◌∷◌, Bool-cases, some-injective, some-ne-none, state_of, Bytes,
}
use sing_vmess.Vless.Service.Users.{look_up, same_bytes}
use sing_vmess.Vless.Service.Users.Lookup.{same_bytes_sound}
use sing_vmess.Encryption.Sessions.{
  ServiceSession, Sessions, delete, drop_through, without, member, use_session,
}

abbrev Map : Type 0
Map = List (Bytes × ServiceSession)

look_up-delete_same : (k : Bytes) (es : Map) → look_up same_bytes (delete same_bytes k es) k ≡ none
unfolding delete look_up
look_up-delete_same k [] = refl
look_up-delete_same k ((k', v) ∷ es) = elim (Bool-cases (same_bytes k' k)) [
  | inl same ↦ rw same (look_up-delete_same k es)
  | inr other ↦ rw (other, other) (look_up-delete_same k es)
]

look_up-delete_other :
    (k t : Bytes) (es : Map)
    → same_bytes k t ≡ false
    → look_up same_bytes (delete same_bytes k es) t ≡ look_up same_bytes es t
unfolding delete look_up
look_up-delete_other k t [] h = refl
look_up-delete_other k t ((k', v) ∷ es) h = elim (Bool-cases (same_bytes k' k)) [
  | inl same ↦
      let apart : same_bytes k' t ≡ false = rw (same_bytes_sound k' k same) h in
      rw (same, apart) (look_up-delete_other k t es h)
  | inr other ↦ elim (Bool-cases (same_bytes k' t)) [
    | inl found ↦ rw (other, found) refl
    | inr apart ↦ rw (other, apart) (look_up-delete_other k t es h)
  ]
]

-- The key has come with the ticket, or the ticket is gone.
unfoldable pub IsUsed : Bytes → Bytes → Map → Type 0
IsUsed ticket key m =
    (look_up same_bytes m ticket ≡ none)
    ⊎ ((x : ServiceSession) × (look_up same_bytes m ticket ≡ some x)
        × (member key x.nfs_keys ≡ true))

pub IsUsed-same :
    (ticket key : Bytes) (m n : Map)
    → look_up same_bytes n ticket ≡ look_up same_bytes m ticket
    → IsUsed ticket key m
    → IsUsed ticket key n
unfolding IsUsed
IsUsed-same ticket key m n e (inl gone) = inl (e ∙ gone)
IsUsed-same ticket key m n e (inr (x, found, used)) = inr (x, e ∙ found, used)

IsUsed-delete :
    (ticket key k : Bytes) (m : Map)
    → IsUsed ticket key m
    → IsUsed ticket key (delete same_bytes k m)
IsUsed-delete ticket key k m used = elim (Bool-cases (same_bytes k ticket)) [
  | inl same ↦
      unfold IsUsed in
      inl (
        subst (λ t. look_up same_bytes (delete same_bytes k m) t ≡ none)
          (same_bytes_sound k ticket same) (look_up-delete_same k m))
  | inr other ↦ IsUsed-same ticket key m _ (look_up-delete_other k ticket m other) used
]

IsUsed-drop_through :
    (ticket key last : Bytes) (tickets : List Bytes) (m : Map)
    → IsUsed ticket key m
    → IsUsed ticket key (drop_through last tickets m).1
unfolding drop_through
IsUsed-drop_through ticket key last [] m used = used
IsUsed-drop_through ticket key last (t ∷ tickets) m used =
    let left = IsUsed-delete ticket key t m used in
    elim (Bool-cases (same_bytes t last)) [
      | inl found ↦ rw found left
      | inr other ↦ rw other (IsUsed-drop_through ticket key last tickets _ left)
    ]

pub IsUsed-without :
    (ticket key : Bytes) (last : Option Bytes) (s : Sessions)
    → IsUsed ticket key s.sessions
    → IsUsed ticket key (without last s).sessions
IsUsed-without ticket key none s used = used
IsUsed-without ticket key (some last) s used =
    IsUsed-drop_through ticket key last s.tickets s.sessions used

or_true : (b : Bool) → (b || true) ≡ true
or_true true = refl
or_true false = refl

IsUsed-again :
    (ticket key t k : Bytes) (x : ServiceSession) (m : Map)
    → look_up same_bytes m t ≡ some x
    → IsUsed ticket key m
    → IsUsed ticket key ((t, record x { nfs_keys = k ∷ x.nfs_keys }) ∷ m)
IsUsed-again ticket key t k x m e used = elim (Bool-cases (same_bytes t ticket)) [
  | inr other ↦ IsUsed-same ticket key m _ (unfold look_up in rw other refl) used
  | inl same ↦
      let at : look_up same_bytes m ticket ≡ some x =
        subst (λ u. look_up same_bytes m u ≡ some x) (same_bytes_sound t ticket same) e in
      found at same (unfold IsUsed in used)
]
  where
    found :
        look_up same_bytes m ticket ≡ some x
        → same_bytes t ticket ≡ true
        → (look_up same_bytes m ticket ≡ none)
          ⊎ ((y : ServiceSession) × (look_up same_bytes m ticket ≡ some y)
              × (member key y.nfs_keys ≡ true))
        → IsUsed ticket key ((t, record x { nfs_keys = k ∷ x.nfs_keys }) ∷ m)
    found at same (inl gone) = absurd (some-ne-none (sym gone ∙ at))
    found at same (inr (y, there, has)) =
        let has_x : member key x.nfs_keys ≡ true =
          subst (λ z. member key z.nfs_keys ≡ true) (some-injective (sym there ∙ at)) has in
        unfold IsUsed look_up member in
        inr (
          record x { nfs_keys = k ∷ x.nfs_keys },
          rw same refl,
          rw has_x (or_true (same_bytes k key)),
        )

pub IsUsed-use_session :
    (ticket key t k : Bytes) (s : Sessions) (o : Option ServiceSession)
    → look_up same_bytes s.sessions t ≡ o
    → IsUsed ticket key s.sessions
    → IsUsed ticket key (state_of (use_session t k o s)).sessions
unfolding use_session IsUsed
IsUsed-use_session ticket key t k s none e used = used
IsUsed-use_session ticket key t k s (some x) e used = elim (Bool-cases (member k x.nfs_keys)) [
  | inl replayed ↦ rw replayed used
  | inr new ↦ rw new (unfold IsUsed in IsUsed-again ticket key t k x s.sessions e used)
]
