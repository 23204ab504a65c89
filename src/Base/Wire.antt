-- ===== src/Base/Wire.antt =====
-- Bytes, big-endian words, and the standard library's readers and writers: io.ReadFull, io.CopyN and
-- encoding/binary over a connection. A byte is a number below 256. A connection that is read is the
-- list of the bytes still to come, and then the end of the stream.
use Prim.Native.Nat.{ℕ, ◌+◌, ◌*◌, ◌/◌, ◌%◌, ◌<◌}
use mathlib.Core.Path.{◌≡◌, refl}
use mathlib.Core.List.{List, [], ◌∷◌, ◌++◌}
use mathlib.Core.Option.{Option, none, some}
use native.Mathlib.Omega.{arith}
use sing_vmess.Base.Compare.{leb, le→leb, if◌then◌else◌}
use sing_vmess.Base.Lists.{length, length-take, take, drop, length-append, take_all, drop_all}
use sing_vmess.Base.State.{Error, eof, unexpected_eof, upstream, Outcome, ok, err, Prog}

abbrev pub Bytes : Type 0
Bytes = List ℕ

abbrev pub IsByte : ℕ → Type 0
IsByte b = b < 256

abbrev pub IsU16 : ℕ → Type 0
IsU16 n = n < 65536

-- binary.BigEndian.PutUint16 of `uint16(n)`, and Uint16.
abbrev pub put_u16 : ℕ → Bytes
put_u16 n = (n / 256 % 256) ∷ (n % 256) ∷ []

abbrev pub u16 : ℕ → ℕ → ℕ
u16 hi lo = hi * 256 + lo

-- binary.BigEndian.PutUint32 of `uint32(n)`.
abbrev pub put_u32 : ℕ → Bytes
put_u32 n = (n / 16777216 % 256) ∷ (n / 65536 % 256) ∷ (n / 256 % 256) ∷ (n % 256) ∷ []

pub u16-put : (n : ℕ) → IsU16 n → u16 (n / 256 % 256) (n % 256) ≡ n
u16-put n h = omega arith

-- What a read that comes short reports.
abbrev pub short : Bytes → Error
short [] = eof
short (b ∷ bs) = unexpected_eof

-- io.ReadFull into a slice of `n` bytes.
unfoldable pub read_full : ℕ → Prog Bytes Bytes
read_full n src = if leb n (length src) then ok (take n src) (drop n src) else err (short src) []

-- io.CopyN to io.Discard, which reports a short source as io.EOF.
unfoldable pub discard : ℕ → Prog Bytes (Unit {0})
discard n src = if leb n (length src) then ok tt (drop n src) else err eof []

-- binary.Read of a uint8 and of a uint16.
abbrev pub read_byte : Prog Bytes ℕ
read_byte [] = err eof []
read_byte (b ∷ r) = ok b r

abbrev pub read_u16 : Prog Bytes ℕ
read_u16 [] = err eof []
read_u16 (b ∷ []) = err unexpected_eof []
read_u16 (b ∷ c ∷ r) = ok (u16 b c) r

pub read_full-append :
    (n : ℕ) (xs rest : Bytes) → length xs ≡ n → read_full n (xs ++ rest) ≡ ok xs rest
unfolding read_full
read_full-append n xs rest h = rw (
  ← h,
  le→leb (length xs) (length (xs ++ rest)) (omega (arith, length-append xs rest)),
  take_all xs rest,
  drop_all xs rest,
)

pub discard-append : (n : ℕ) (xs rest : Bytes) → length xs ≡ n → discard n (xs ++ rest) ≡ ok tt rest
unfolding discard
discard-append n xs rest h = rw (
  ← h,
  le→leb (length xs) (length (xs ++ rest)) (omega (arith, length-append xs rest)),
  drop_all xs rest,
)

pub read_full-short : (n : ℕ) (src : Bytes) → length src < n → read_full n src ≡ err (short src) []
unfolding read_full
read_full-short n src h = ground arith

-- A connection that is written: the bytes it took, and for each coming call whether it fails, and
-- after how many bytes. With no entry left every call succeeds.
pub record Sink : Type 0 where
  pub sent : Bytes
  pub faults : List (Option ℕ)

unfoldable pub write_with : List (Option ℕ) → Bytes → Bytes → Outcome Sink (Unit {0})
write_with [] sent p = ok tt (record { sent = sent ++ p; faults = [] })
write_with (none ∷ fs) sent p = ok tt (record { sent = sent ++ p; faults = fs })
write_with (some n ∷ fs) sent p = err upstream (record { sent = sent ++ take n p; faults = fs })

-- net.Conn's Write.
unfoldable pub write : Bytes → Prog Sink (Unit {0})
write p s = write_with s.faults s.sent p

-- A connection that takes every write.
abbrev pub open_sink : Bytes → Sink
open_sink sent = record { sent = sent; faults = [] }

pub write_open : (sent p : Bytes) → write p (open_sink sent) ≡ ok tt (open_sink (sent ++ p))
unfolding write write_with
write_open sent p = refl

-- A full read fills its slice.
pub length-read_full : (n : ℕ) (src p rest : Bytes) → read_full n src ≡ ok p rest → length p ≡ n
unfolding read_full
length-read_full n src p rest e = ground (arith, length-take n src)
