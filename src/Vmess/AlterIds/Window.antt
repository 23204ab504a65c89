-- ===== src/Vmess/AlterIds/Window.antt =====
-- Which entries the table of the legacy ids has (service.go: generateLegacyKeys).
use sing_vmess.Base.{
  ℕ, zero, suc, ◌+◌, ◌-◌, ◌≤◌, ◌<◌, ◌≡◌, refl, subst, inl, inr, Bool, some, List, [], ◌∷◌, ◌++◌,
  arith, ◌==◌, ==_iff, Bool-cases, All, some-injective, some-ne-none, Bytes, get_elem?,
}
use sing_vmess.Vmess.Service.{LegacyUser}
use sing_vmess.Vless.Service.Users.{look_up, same_bytes}
use sing_vmess.Vless.Service.Users.Lookup.{same_bytes_refl, same_bytes_sound}
use sing_vmess.Vmess.AlterIds.{
  cache_duration, Table, or_zero, begin_of, add_times, add_ids, add_users, generate_legacy_keys,
  update_users,
}

-- An entry that is right for a key: its user is one of the users, its index is that of one of the user's
-- ids, its time lies between the two given ones, and the hash of its time under that id is the key.
unfoldable pub IsIssued :
    {U : Type 0}
    → (Bytes → ℕ → Bytes)
    → ℕ
    → ℕ
    → List (U × List Bytes)
    → Bytes
    → LegacyUser U
    → Type 0
IsIssued id_hash first last users key e =
    (n : ℕ) × (ids : List Bytes) × (id : Bytes) × (get_elem? users n ≡ some (e.user, ids))
    × (get_elem? ids e.index ≡ some id)
    × (first ≤ e.time)
    × (e.time ≤ last)
    × (id_hash id e.time ≡ key)

Has : {U : Type 0} → List (Bytes × LegacyUser U) → Bytes → Type 0
Has {U} m k = (e : LegacyUser U) × (look_up same_bytes m k ≡ some e)

AllEntries : {U : Type 0} → (Bytes → LegacyUser U → Type 0) → List (Bytes × LegacyUser U) → Type 0
AllEntries P = All (λ x. P x.0 x.1)

look_up-AllEntries :
    {U : Type 0} (P : Bytes → LegacyUser U → Type 0) (m : List (Bytes × LegacyUser U)) (k : Bytes)
    (e : LegacyUser U)
    → AllEntries P m
    → look_up same_bytes m k ≡ some e
    → P k e
unfolding AllEntries look_up
look_up-AllEntries P [] k e h found = absurd (some-ne-none found)
look_up-AllEntries P ((k', e') ∷ m) k e (here, h) found = elim (Bool-cases (same_bytes k' k)) [
  | inl same ↦
      subst (λ x. P x e) (same_bytes_sound k' k same)
        (subst (P k') (some-injective (rw same at found)) here)
  | inr other ↦ look_up-AllEntries P m k e h (rw other at found)
]

module _ {U : Type 0} (id_hash : Bytes → ℕ → Bytes) (P : Bytes → LegacyUser U → Type 0) where
  add_times-AllEntries :
      (user : U) (id : Bytes) (i ts n : ℕ) (m : List (Bytes × LegacyUser U))
      → ((t : ℕ)
          → ts ≤ t
          → t < ts + n
          → P (id_hash id t) (record { user = user; time = t; index = i }))
      → AllEntries P m
      → AllEntries P (add_times id_hash user id i ts n m)
  unfolding add_times AllEntries
  add_times-AllEntries user id i ts zero m each h = h
  add_times-AllEntries user id i ts (suc n) m each h =
      add_times-AllEntries user id i (suc ts) n
        ((id_hash id ts, record { user = user; time = ts; index = i }) ∷ m)
        (λ t from to. each t (omega arith) (omega arith)) (each ts (omega arith) (omega arith), h)

  add_ids-AllEntries :
      (user : U) (i begin end : ℕ) (ids : List Bytes) (m : List (Bytes × LegacyUser U))
      → ((j k : ℕ) (id : Bytes) (t : ℕ)
          → j ≡ i + k
          → get_elem? ids k ≡ some id
          → begin ≤ t
          → t ≤ end
          → P (id_hash id t) (record { user = user; time = t; index = j }))
      → AllEntries P m
      → AllEntries P (add_ids id_hash user i begin end ids m)
  unfolding add_ids
  add_ids-AllEntries user i begin end [] m each h = h
  add_ids-AllEntries user i begin end (id ∷ ids) m each h =
      add_ids-AllEntries user (suc i) begin end ids _
        (λ j k id' t e at from to. each j (suc k) id' t (omega arith) at from to)
        (add_times-AllEntries user id i begin (suc end - begin) m
          (λ t from to. each i 0 id t (omega arith) refl from (omega arith)) h)

  add_users-AllEntries :
      (same : U → U → Bool) (now : ℕ) (times : List (U × ℕ)) (users : List (U × List Bytes))
      (m : List (Bytes × LegacyUser U))
      → ((n : ℕ) (user : U) (ids : List Bytes) (k : ℕ) (id : Bytes) (t : ℕ)
          → get_elem? users n ≡ some (user, ids)
          → get_elem? ids k ≡ some id
          → begin_of now (or_zero (look_up same times user)) ≤ t
          → t ≤ now + cache_duration
          → P (id_hash id t) (record { user = user; time = t; index = k }))
      → AllEntries P m
      → AllEntries P (add_users id_hash same now times users m)
  unfolding add_users
  add_users-AllEntries same now times [] m each h = h
  add_users-AllEntries same now times ((user, ids) ∷ users) m each h =
      add_users-AllEntries same now times users _
        (λ n user' ids' k id t at at' from to. each (suc n) user' ids' k id t at at' from to)
        (add_ids-AllEntries user 0 (begin_of now (or_zero (look_up same times user)))
          (now + cache_duration) ids m
          (λ j k id t e at from to.
            let same_index : k ≡ j = omega arith in
            subst (λ x. P (id_hash id t) (record { user = user; time = t; index = x })) same_index
              (each 0 user ids k id t refl at from to))
          h)

-- Every entry of a table that is made anew is right, if all users start from `first` or later.
pub add_users-IsIssued :
    {U : Type 0} (id_hash : Bytes → ℕ → Bytes) (same : U → U → Bool) (now first : ℕ)
    (times : List (U × ℕ)) (users : List (U × List Bytes)) (k : Bytes) (e : LegacyUser U)
    → ((n : ℕ) (u : U × List Bytes)
        → get_elem? users n ≡ some u
        → first ≤ begin_of now (or_zero (look_up same times u.0)))
    → look_up same_bytes (add_users id_hash same now times users []) k ≡ some e
    → IsIssued id_hash first (now + cache_duration) users k e
add_users-IsIssued id_hash same now first times users k e starts found =
    look_up-AllEntries (IsIssued id_hash first (now + cache_duration) users)
      (add_users id_hash same now times users []) k e
      (add_users-AllEntries id_hash (IsIssued id_hash first (now + cache_duration) users) same now
        times users []
        (λ n user ids i id t at at' from to.
          unfold IsIssued in
          let start = starts n (user, ids) at in (n, ids, id, at, at', omega arith, to, refl))
        (unfold AllEntries in tt))
      found

module _ {U : Type 0} (id_hash : Bytes → ℕ → Bytes) where
  Has-keeps :
      (m : List (Bytes × LegacyUser U)) (k k' : Bytes) (e : LegacyUser U)
      → Has m k
      → Has ((k', e) ∷ m) k
  unfolding Has look_up
  Has-keeps m k k' e (e', found) = elim (Bool-cases (same_bytes k' k)) [
    | inl same ↦ (e, rw same refl)
    | inr other ↦ (e', rw other found)
  ]

  add_times-Has :
      (user : U) (id : Bytes) (i ts n : ℕ) (k : Bytes) (m : List (Bytes × LegacyUser U))
      → Has m k
      → Has (add_times id_hash user id i ts n m) k
  unfolding add_times
  add_times-Has user id i ts zero k m has = has
  add_times-Has user id i ts (suc n) k m has =
      add_times-Has user id i (suc ts) n k _
        (Has-keeps m k (id_hash id ts) (record { user = user; time = ts; index = i }) has)

  add_times-new :
      (user : U) (id : Bytes) (i ts n t : ℕ) (m : List (Bytes × LegacyUser U))
      → ts ≤ t
      → t < ts + n
      → Has (add_times id_hash user id i ts n m) (id_hash id t)
  unfolding add_times
  add_times-new user id i ts zero t m h h' = absurd (omega arith)
  add_times-new user id i ts (suc n) t m h h' = elim (Bool-cases (ts == t)) [
    | inl here ↦
        let at : ts ≡ t = (==_iff ts t).0 here in
        let e : LegacyUser U = record { user = user; time = ts; index = i } in
        add_times-Has user id i (suc ts) n (id_hash id t) ((id_hash id ts, e) ∷ m)
          (unfold Has look_up in (e, rw (at, same_bytes_refl (id_hash id t)) refl))
    | inr later ↦ add_times-new user id i (suc ts) n t _ (ground arith) (omega arith)
  ]

  add_ids-Has :
      (user : U) (i begin end : ℕ) (ids : List Bytes) (k : Bytes) (m : List (Bytes × LegacyUser U))
      → Has m k
      → Has (add_ids id_hash user i begin end ids m) k
  unfolding add_ids
  add_ids-Has user i begin end [] k m has = has
  add_ids-Has user i begin end (id ∷ ids) k m has =
      add_ids-Has user (suc i) begin end ids k _
        (add_times-Has user id i begin (suc end - begin) k m has)

  add_ids-new :
      (user : U) (i begin end : ℕ) (before later : List Bytes) (id : Bytes) (t : ℕ)
      (m : List (Bytes × LegacyUser U))
      → begin ≤ t
      → t ≤ end
      → Has (add_ids id_hash user i begin end (before ++ (id ∷ later)) m) (id_hash id t)
  unfolding add_ids
  add_ids-new user i begin end [] later id t m h h' =
      add_ids-Has user (suc i) begin end later (id_hash id t) _
        (add_times-new user id i begin (suc end - begin) t m h (omega arith))
  add_ids-new user i begin end (b ∷ before) later id t m h h' =
      add_ids-new user (suc i) begin end before later id t _ h h'

  module _ (same : U → U → Bool) where
    add_users-Has :
        (now : ℕ) (times : List (U × ℕ)) (users : List (U × List Bytes)) (k : Bytes)
        (m : List (Bytes × LegacyUser U))
        → Has m k
        → Has (add_users id_hash same now times users m) k
    unfolding add_users
    add_users-Has now times [] k m has = has
    add_users-Has now times ((u, ids) ∷ users) k m has = add_users-Has now times users k _ (
        add_ids-Has u 0 (begin_of now (or_zero (look_up same times u))) (now + cache_duration) ids k
          m has)

    add_users-new :
        (now : ℕ) (times : List (U × ℕ)) (before later : List (U × List Bytes)) (user : U)
        (ids ids' : List Bytes) (id : Bytes) (t : ℕ) (m : List (Bytes × LegacyUser U))
        → begin_of now (or_zero (look_up same times user)) ≤ t
        → t ≤ now + cache_duration
        → Has
            (add_users id_hash same now times (before ++ ((user, ids ++ (id ∷ ids')) ∷ later)) m)
            (id_hash id t)
    unfolding add_users
    add_users-new now times [] later user ids ids' id t m h h' =
        add_users-Has now times later (id_hash id t) _ (
          add_ids-new user 0 (begin_of now (or_zero (look_up same times user)))
            (now + cache_duration) ids ids' id t m h h')
    add_users-new now times (b ∷ before) later user ids ids' id t m h h' =
        add_users-new now times before later user ids ids' id t _ h h'

    -- After UpdateUsers at the time `now` the table has an entry for every id of every user at every time from two
    -- minutes before to two minutes after, and the entry is right: it names one of the users, the index of
    -- one of that user's ids, and a time between the two, such that the hash of that time under that id is
    -- the key.
    pub update_users-IsIssued :
        (now : ℕ) (before later : List (U × List Bytes)) (user : U) (ids ids' : List Bytes)
        (id : Bytes) (t : ℕ) (table : Table U)
        → now ≤ t + cache_duration
        → t ≤ now + cache_duration
        → (e : LegacyUser U) × (look_up same_bytes
              (update_users id_hash same now
                (before ++ ((user, ids ++ (id ∷ ids')) ∷ later))
                table).alter_id_map
              (id_hash id t)
            ≡ some e)
          × IsIssued id_hash
              (now - cache_duration)
              (now + cache_duration)
              (before ++ ((user, ids ++ (id ∷ ids')) ∷ later))
              (id_hash id t)
              e
    unfolding update_users generate_legacy_keys Has
    update_users-IsIssued now before later user ids ids' id t table h h' =
        let start : begin_of now (or_zero (look_up same [] user)) ≤ t =
          unfold look_up in ground arith in
        let first : now - cache_duration ≤ begin_of now 0 = ground arith in
        let (e, found) = add_users-new now [] before later user ids ids' id t [] start h' in
        (
          e,
          found,
          add_users-IsIssued id_hash same now (now - cache_duration) [] _ (id_hash id t) e
              (λ n u at. unfold look_up in first) found,
        )
