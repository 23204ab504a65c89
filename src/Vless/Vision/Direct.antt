-- ===== src/Vless/Vision/Direct.antt =====
-- When the vision flow turns to the lower connection (vless/vision.go: filterTLS, Write).
use sing_vmess.Base.{
  ℕ, ◌-◌, min, ◌≡◌, refl, ◌⊎◌, inl, inr, Bool, true, false, ◌||◌, List, [], ◌∷◌, arith, ltb,
  if◌then◌else◌, Bool-cases, length, Bytes,
}
use sing_vmess.Vless.Vision.Filter.{
  tls13_cipher_suite, is_direct, Filter, contains, tls13_supported_versions, read_cipher,
  server_hello, recognise, follow, filter_packet, filter_tls, filter_while,
}

-- A filter knows of TLS 1.2 only on a connection with TLS, and waits only for a server hello.
HasHello : Filter → Type 0
HasHello c =
    ((c.is_tls12_or_above ≡ false) ⊎ (c.is_tls ≡ true))
    × ((c.remaining_server_hello ≡ 0) ⊎ (c.is_tls12_or_above ≡ true))

-- Direct writes are off, or the filter is done, and has seen a cipher suite of TLS 1.3 that allows them.
AllowsDirect : Filter → Type 0
AllowsDirect c =
    (c.packets_to_filter ≡ 0)
    × (c.is_tls12_or_above ≡ true)
    × (is_direct (tls13_cipher_suite c.cipher) ≡ true)

pub IsLearned : Filter → Type 0
unfolding HasHello AllowsDirect
IsLearned c = HasHello c × ((c.enable_xtls ≡ false) ⊎ AllowsDirect c)

-- Before the filter is done.
IsLearning : Filter → Type 0
unfolding HasHello
IsLearning c = HasHello c × (c.enable_xtls ≡ false)

pub either : {A : Type 0} (P : A → Type 0) (b : Bool) {x y : A} → P x → P y → P (if b then x else y)
either P true p q = p
either P false p q = q

server_hello-IsLearning : (b : Bytes) (c : Filter) → IsLearning c → IsLearning (server_hello b c)
unfolding IsLearning HasHello server_hello read_cipher
server_hello-IsLearning b c (h, off) =
    either IsLearning _ ((inr refl, inr refl), off) ((inr refl, inr refl), off)

with_tls : (c : Filter) → IsLearning c → IsLearning (record c { is_tls = true })
unfolding IsLearning HasHello
with_tls c ((tls, waits), off) = ((inr refl, waits), off)

recognise-IsLearning : (b : Bytes) (c : Filter) → IsLearning c → IsLearning (recognise b c)
unfolding recognise
recognise-IsLearning b c h =
    either IsLearning (ltb 6 (length b))
      (either IsLearning _ (either IsLearning _ (server_hello-IsLearning b c h) (with_tls c h))
        (either IsLearning _ (with_tls c h) h))
      h

-- What filterTLS knows behind a packet: it goes on only without direct writes.
IsBehind : (Bool × Filter) → Type 0
unfolding IsLearned IsLearning HasHello
IsBehind s = IsLearned s.1 × ((s.0 ≡ true) ⊎ IsLearning s.1)

stops : (c : Filter) → IsLearned c → IsBehind (true, c)
unfolding IsBehind
stops c h = (h, inl refl)

goes_on : (c : Filter) → IsLearning c → IsBehind (false, c)
unfolding IsBehind IsLearned IsLearning
goes_on c h = ((h.0, inl h.1), inr h)

rest_waits : (r e : ℕ) (b : Bool) → ((r ≡ 0) ⊎ (b ≡ true)) → ((r - e ≡ 0) ⊎ (b ≡ true))
rest_waits r e b (inl none_left) = inl (omega arith)
rest_waits r e b (inr seen) = inr seen

seen_hello : (r : ℕ) (b : Bool) → ltb 0 r ≡ true → ((r ≡ 0) ⊎ (b ≡ true)) → b ≡ true
seen_hello r b more (inl none_left) = absurd (ground arith)
seen_hello r b more (inr seen) = seen

enables :
    (cipher : ℕ) (on seen : Bool)
    → on ≡ false
    → seen ≡ true
    → ((is_direct (tls13_cipher_suite cipher) || on) ≡ false)
      ⊎ ((◌≡◌ {A = ℕ} 0 0) × (seen ≡ true) × (is_direct (tls13_cipher_suite cipher) ≡ true))
enables cipher on seen off h = elim (Bool-cases (is_direct (tls13_cipher_suite cipher))) [
  | inl direct ↦ inr (refl, h, direct)
  | inr other ↦ inl (rw (other, off) refl)
]

follow-IsBehind : (b : Bytes) (c : Filter) → IsLearning c → IsBehind (follow b c)
unfolding IsLearned IsLearning HasHello AllowsDirect follow
follow-IsBehind b c ((tls, waits), off) = elim (Bool-cases (ltb 0 c.remaining_server_hello)) [
  | inr over ↦ rw over (goes_on c ((tls, waits), off))
  | inl more ↦
      let left = rest_waits _ (min c.remaining_server_hello (length b)) _ waits in
      let seen = seen_hello _ _ more waits in
      rw more (
        either IsBehind (contains tls13_supported_versions _)
          (stops _ ((tls, left), enables c.cipher _ _ off seen))
          (either IsBehind _ (stops _ ((tls, left), inl off)) (goes_on _ ((tls, left), off))))
]

filter_packet-IsBehind : (b : Bytes) (c : Filter) → IsLearning c → IsBehind (filter_packet b c)
unfolding filter_packet IsLearning HasHello
filter_packet-IsBehind b c h = follow-IsBehind b _ (recognise-IsLearning b _ h)

filter_tls-IsLearned : (bs : List Bytes) (c : Filter) → IsLearning c → IsLearned (filter_tls bs c)
unfolding filter_tls IsBehind IsLearned IsLearning
filter_tls-IsLearned [] c h = (h.0, inl h.1)
filter_tls-IsLearned (b ∷ bs) c h =
    let (learned, on) = filter_packet-IsBehind b c h in
    elim on [
      | inl done ↦ rw done learned
      | inr more ↦ either IsLearned _ learned (filter_tls-IsLearned bs _ more)
    ]

pub filter_while-IsLearned :
    (bs : List Bytes) (c : Filter) → IsLearned c → IsLearned (filter_while bs c)
unfolding filter_while IsLearned IsLearning AllowsDirect
filter_while-IsLearned bs c h = elim (Bool-cases (ltb 0 c.packets_to_filter)) [
  | inr over ↦ rw over h
  | inl more ↦ rw more (elim h.1 [
    | inl off ↦ filter_tls-IsLearned bs c (h.0, off)
    | inr allows ↦ absurd (ground (arith, allows.0))
  ])
]

pub filter_while_done :
    (bs : List Bytes) (c : Filter) → IsLearned c → c.enable_xtls ≡ true → filter_while bs c ≡ c
unfolding filter_while IsLearned AllowsDirect
filter_while_done bs c h on = elim h.1 [ inl off ↦ absurd cc | inr allows ↦ rw allows.0 refl ]

seen_tls : (seen tls : Bool) → ((seen ≡ false) ⊎ (tls ≡ true)) → seen ≡ true → tls ≡ true
seen_tls seen tls (inl unseen) h = absurd cc
seen_tls seen tls (inr found) h = found

pub allowed :
    (c : Filter)
    → IsLearned c
    → c.enable_xtls ≡ true
    → (c.packets_to_filter ≡ 0)
      × (c.is_tls12_or_above ≡ true)
      × (c.is_tls ≡ true)
      × (is_direct (tls13_cipher_suite c.cipher) ≡ true)
unfolding IsLearned HasHello AllowsDirect
allowed c ((tls, waits), inl off) on = absurd cc
allowed c ((tls, waits), inr (done, seen, direct)) on = (done, seen, seen_tls _ _ tls seen, direct)

pub new-IsLearned :
    (c : Filter)
    → c.is_tls12_or_above ≡ false
    → c.remaining_server_hello ≡ 0
    → c.enable_xtls ≡ false
    → IsLearned c
unfolding IsLearned HasHello
new-IsLearned c unseen idle off = ((inl unseen, inl idle), inl off)
