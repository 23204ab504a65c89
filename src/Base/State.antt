-- ===== src/Base/State.antt =====
-- Go's methods as state passing. A method that returns an error keeps the changes that it made
-- before, so an error carries the state as well.
use mathlib.Core.Path.{◌≡◌}
use mathlib.Core.Option.{Option, none, some}

-- The error values that the code returns. `upstream` is whatever a call of the connection reports.
-- `blocked` is no Go value: the call waits for ever on a mutex that nobody will release.
pub data Error : Type 0 where
  eof unexpected_eof short_buffer upstream : Error
  bad_length_chunk invalid_checksum open_failed : Error
  unexpected_frame_new unexpected_frame remote_closed invalid_frame_length bad_address : Error
  bad_network bad_session_status pipe_closed : Error
  unknown_version unknown_header overflow : Error
  invalid_header unknown_command : Error
  blocked : Error
  fqdn_unsupported empty_segment segment_too_large invalid_segment : Error
  unknown_uuid udp_flow flow_mismatch unknown_flow unknown_network : Error
  bad_request replay bad_timestamp bad_checksum bad_response unknown_option bad_security : Error
  ticket_expired bad_padding : Error

pub data Outcome (S A : Type 0) : Type 0 where
  ok : A → S → Outcome S A
  err : Error → S → Outcome S A

abbrev pub Prog : Type 0 → Type 0 → Type 0
Prog S A = S → Outcome S A

abbrev pub pure : {S A : Type 0} → A → Prog S A
pure a s = ok a s

abbrev pub fail : {S A : Type 0} → Error → Prog S A
fail e s = err e s

-- The state behind a step: what the error case keeps too.
abbrev pub state_of : {S A : Type 0} → Outcome S A → S
state_of (ok a s) = s
state_of (err e s) = s

abbrev pub and_then : {S A B : Type 0} → Outcome S A → (A → Prog S B) → Outcome S B
and_then (ok a s) f = f a s
and_then (err e s) f = err e s

infixl 5 ◌>>=◌ ◌>>◌
abbrev pub ◌>>=◌ : {S A B : Type 0} → Prog S A → (A → Prog S B) → Prog S B
◌>>=◌ m f s = and_then (m s) f

abbrev pub ◌>>◌ : {S B : Type 0} → Prog S (Unit {0}) → Prog S B → Prog S B
m >> k = m >>= λ _. k

-- A field of the state, to run a program of its type there.
pub record Lens (S T : Type 0) : Type 0 where
  pub get : S → T
  pub put : S → T → S

abbrev pub lift : {S T A : Type 0} → Lens S T → S → Outcome T A → Outcome S A
lift l s (ok a t) = ok a (l.put s t)
lift l s (err e t) = err e (l.put s t)

abbrev pub zoom : {S T A : Type 0} → Lens S T → Prog T A → Prog S A
zoom l m s = lift l s (m (l.get s))

abbrev pub gets : {S A : Type 0} → (S → A) → Prog S A
gets f s = ok (f s) s

abbrev pub modify : {S : Type 0} → (S → S) → Prog S (Unit {0})
modify f s = ok tt (f s)

pub ok-ne-err :
    {S A : Type 0} {a : A} {e : Error} {s t : S} → ◌≡◌ {A = Outcome S A} (ok a s) (err e t) → ⊥
ok-ne-err h = cc

pub ok-injective :
    {S X : Type 0} {a b : X} {s t : S} → ◌≡◌ {A = Outcome S X} (ok a s) (ok b t) → a ≡ b
ok-injective e = cc

pub ok-state : {S X : Type 0} {a b : X} {s t : S} → ◌≡◌ {A = Outcome S X} (ok a s) (ok b t) → s ≡ t
ok-state e = cc

pub some-injective : {X : Type 0} {a b : X} → some a ≡ some b → a ≡ b
some-injective e = cc

pub some-ne-none : {X : Type 0} {a : X} → ◌≡◌ {A = Option X} none (some a) → ⊥
some-ne-none e = cc
