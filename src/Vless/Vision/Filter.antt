-- ===== src/Vless/Vision/Filter.antt =====
-- What the vision flow learns of the TLS connection that it carries (vless/vision.go: filterTLS;
-- vless/constant.go). The connection's logger is left out.
use sing_vmess.Base.{
  ℕ, ◌+◌, ◌-◌, min, Bool, true, false, ◌&&◌, ◌||◌, Option, none, some, List, [], ◌∷◌, ltb, leb,
  ◌==◌, if◌then◌else◌, length, get_or, take, Bytes, u16,
}

-- tls13CipherSuiteDic.
pub data CipherSuite : Type 0 where
  aes_128_gcm aes_256_gcm chacha20_poly1305 aes_128_ccm aes_128_ccm_8 : CipherSuite

unfoldable pub tls13_cipher_suite : ℕ → Option CipherSuite
tls13_cipher_suite id =
    if id == 4865
    then some aes_128_gcm
    else if id == 4866
    then some aes_256_gcm
    else if id == 4867
    then some chacha20_poly1305
    else if id == 4868
    then some aes_128_ccm
    else if id == 4869
    then some aes_128_ccm_8
    else none

unfoldable pub is_direct : Option CipherSuite → Bool
is_direct none = false
is_direct (some aes_128_gcm) = true
is_direct (some aes_256_gcm) = true
is_direct (some chacha20_poly1305) = true
is_direct (some aes_128_ccm) = true
is_direct (some aes_128_ccm_8) = false

-- filterTLS's state. The code's numberOfPacketToFilter and remainingServerHello are only compared with
-- numbers from 0 up, so that what is below 0 there is 0 here.
pub record Filter : Type 0 where
  pub is_tls : Bool
  pub packets_to_filter : ℕ
  pub is_tls12_or_above : Bool
  pub remaining_server_hello : ℕ
  pub cipher : ℕ
  pub enable_xtls : Bool

-- bytes.HasPrefix, and bytes.Contains of tls13SupportedVersions.
starts_with : Bytes → Bytes → Bool
starts_with [] b = true
starts_with (x ∷ xs) [] = false
starts_with (x ∷ xs) (y ∷ b) = x == y && starts_with xs b

pub contains : Bytes → Bytes → Bool
contains p [] = starts_with p []
contains p (x ∷ b) = starts_with p (x ∷ b) || contains p b

abbrev pub tls13_supported_versions : Bytes
tls13_supported_versions = 0 ∷ 43 ∷ 0 ∷ 2 ∷ 3 ∷ 4 ∷ []

-- The cipher suite of a server hello, behind its session id.
unfoldable pub read_cipher : Bytes → Filter → Filter
read_cipher b c =
    let session = get_or b 43 0 in
    if leb 79 (length b) && leb 79 c.remaining_server_hello && leb (43 + session + 3) (length b)
    then record c { cipher = u16 (get_or b (43 + session + 1) 0) (get_or b (43 + session + 2) 0) }
    else c

unfoldable pub server_hello : Bytes → Filter → Filter
server_hello b c = read_cipher b (record c {
  is_tls = true;
  is_tls12_or_above = true;
  remaining_server_hello = u16 (get_or b 3 0) (get_or b 4 0) + 5;
})

-- The test on the start of the packet.
unfoldable pub recognise : Bytes → Filter → Filter
recognise b c =
    if ltb 6 (length b)
    then (if get_or b 0 0 == 22 && get_or b 1 0 == 3 && get_or b 2 0 == 3
        then (if get_or b 5 0 == 2 then server_hello b c else record c { is_tls = true })
        else if get_or b 0 0 == 22 && get_or b 1 0 == 3 && get_or b 5 0 == 1
        then record c { is_tls = true }
        else c)
    else c

-- The search of the server hello for TLS 1.3, and whether filterTLS returns there.
unfoldable pub follow : Bytes → Filter → Bool × Filter
follow b c =
    let end = min c.remaining_server_hello (length b) in
    let rest = c.remaining_server_hello - end in
    if ltb 0 c.remaining_server_hello
    then (if contains tls13_supported_versions (take end b)
        then (
          true,
          record c {
            remaining_server_hello = rest;
            packets_to_filter = 0;
            enable_xtls = is_direct (tls13_cipher_suite c.cipher) || c.enable_xtls;
          },
        )
        else if rest == 0
        then (true, record c { remaining_server_hello = rest; packets_to_filter = 0 })
        else (false, record c { remaining_server_hello = rest }))
    else (false, c)

unfoldable pub filter_packet : Bytes → Filter → Bool × Filter
filter_packet b c =
    follow b (recognise b (record c { packets_to_filter = c.packets_to_filter - 1 }))

-- filterTLS.
unfoldable pub filter_tls : List Bytes → Filter → Filter
filter_tls [] c = c
filter_tls (b ∷ bs) c =
    let after = filter_packet b c in
    let later = filter_tls bs after.1 in if after.0 then after.1 else later

-- filterTLS under the test that its callers make.
unfoldable pub filter_while : List Bytes → Filter → Filter
filter_while bs c = if ltb 0 c.packets_to_filter then filter_tls bs c else c
