-- ===== src/Lib.antt =====
-- sing-vmess: the VMess and VLESS protocols over a connection, in Go.
--
-- The program is a stack of connections that wrap connections. VMess cuts what is sent into chunks, whose
-- length may be masked, padded or sealed, and the payload may be sealed or have a checksum; CreateReader
-- and CreateWriter choose the layers. Before the chunks its client sends a sealed or a legacy header, by
-- which the service finds the user, and the service sends a response before its own. VLESS sends a
-- request, and may encrypt records, mask their headers and pad the first buffers. The multiplexer carries streams and packets in frames over one connection.
--
-- Files:
--   Base          tests, lists, and Go's methods as state passing: an error keeps the state that the
--                 method has left; bytes, big-endian words, io.ReadFull, and connections
--   Chunk         Stream: chunk_length_stream.go; AeadLength: chunk_length_aead.go; Aead:
--                 chunk_aead.go; Checksum: chunk_stream_checksum.go; Legacy: chunk_stream.go; Hashes and Cipher: the SHAKE
--                 streams and the AEAD ciphers that they use
--   Protocol      protocol.go: CreateReader, CreateWriter, ReaderOverhead
--   Encryption    vless/encryption/common.go: Header (encodeHeader, decodeHeader), Nonce
--                 (increaseNonce), Record (CommonConn), Padding (parsePadding, createPadding);
--                 vless/encryption/xor.go: Xor (XorConn); vless/encryption/service.go: Sessions (the
--                 tickets)
--   Address       the address serializers of the sing library, as an interface with its laws
--   Mux           Frame and Session: mux.go (serverSession); Race: its writers between writeRace and the
--                 mutex, over the std_bufio.Writer with its 4096 bytes; Packets: its serverMuxPacketConn; Wrapper: mux_wrapper.go; Xudp:
--                 xudp.go
--   Vless         Request: vless/protocol.go; Client: vless/client.go (Conn, PacketConn); Service:
--                 vless/service.go (serverConn, serverPacketConn, the users); Vision:
--                 vless/constant.go and vless/vision.go (padding, filterTLS, Write)
--   Vmess         Kdf: kdf.go; Header and Request: client.go (encodeHeader, writeHandshake) and
--                 protocol.go (AuthID); Service: service.go (NewConnection); Response: writeResponse of
--                 service.go and readResponse of client.go; AlterIds: service.go (generateLegacyKeys);
--                 Crypto: the hashes and ciphers that they use
--   PacketAddr    packetaddr/stream_conn.go; Datagram: packetaddr/conn.go
--   Tests         the theorems at concrete inputs
--
-- A connection that is read is the list of the bytes still to come; one that is written is the bytes
-- that it took, and for each coming call whether it fails. A byte is a number below 256, and a word of 16
-- bits wraps where the source wraps it. Loops that the source runs until the bytes are used up run on fuel:
-- a step takes at least one byte (six in the frames that a client of the multiplexer reads), and the fuel is
-- the number of bytes, or one more. The mutexes are modelled where a property depends on them: the mutex of
-- AEADChunkWriter.Write as a field, and the order of the session's writers as a list of events.
-- An int has 64 bits where its sums may wrap (the padding of the encryption).
--
-- Parameters, since their code is not here: the words of the SHAKE streams, the ciphers and hashes, the key
-- stream of CTR mode, the key derivation of the records, the random source, the replay filter, the address
-- serializers, varbin.UvarintLen, strconv.Atoi and the parsing of uuids. The serializer for headroom
-- (SocksaddrSerializer) gives the lengths of the one that writes. A map of Go is the list of its entries,
-- the latest first, and an iteration over one takes the order of a list. The first read of a VMess service
-- is given as the bytes that it got.
--
-- Not modelled: the key exchange of the encryption and the parsing of its options, the layer that a VMess
-- handshake puts its payload through (it is one of Protocol's), the dial functions, which make a connection
-- and write to it once, Read of the vision flow beyond unPadding and filterTLS, deadlines and accessors.
pub mod Base
pub mod Chunk
pub mod Protocol
pub mod Encryption
pub mod Address
pub mod Mux
pub mod Vless
pub mod Vmess
pub mod PacketAddr
pub mod Tests
