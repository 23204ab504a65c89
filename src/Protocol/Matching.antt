-- ===== src/Protocol/Matching.antt =====
-- A reader undoes the writer made with the same arguments: the layers are the same.
use sing_vmess.Base.{ℕ, ◌≡◌, Bool, true, false, ◌&&◌, some, arith, ◌==◌, if◌then◌else◌}
use mathlib.Core.Option
use sing_vmess.Protocol.{
  reader_overhead, Layers, aead_chunk, checksum, aead, sized, Keys, has, security_type_legacy,
  option_chunk_stream, option_authenticated_length, none_reader, stream_reader, legacy_reader,
  aes_reader, chacha_reader, create_reader, write_chunk_size, security_type_none,
}

-- The ChunkWriter around a writer's layers: there is none without an AEAD or a checksum.
abbrev pub split_writes : ℕ → ℕ → Layers → Layers
split_writes security option l =
    if security == security_type_none
    then l
    else if security == security_type_legacy
    then (if has option option_chunk_stream then sized write_chunk_size l else l)
    else sized write_chunk_size l

-- The legacy security type with a stream passed and no chunks.
abbrev pub RestartsStream : ℕ → ℕ → Bool → Type 0
RestartsStream security option has_stream =
    (security ≡ security_type_legacy)
    × (has option option_chunk_stream ≡ false)
    × (has_stream ≡ true)

-- What a layer takes of the slice above the data that it hands on: the tag of an AEAD, the checksum, or
-- the sealed length.
abbrev pub overhead : Layers → ℕ
overhead (aead a k n l) = 16
overhead (checksum l) = 4
overhead (aead_chunk a k n s l) = 18
overhead _ = 0

overhead-none_reader :
    (option : ℕ) (k : Keys)
    → overhead (none_reader option k)
      ≡ (if has option option_chunk_stream && has option option_authenticated_length then 18 else 0)
unfolding none_reader
overhead-none_reader option k = ground arith

overhead-legacy_reader :
    (option : ℕ) (has_stream : Bool) (k : Keys)
    → overhead (legacy_reader option has_stream k)
      ≡ (if has option option_chunk_stream then 4 else 0)
unfolding legacy_reader stream_reader
overhead-legacy_reader option true k = ground arith
overhead-legacy_reader option false k = ground arith

overhead-aes_reader : (option : ℕ) (k : Keys) → overhead (aes_reader option k) ≡ 16
unfolding aes_reader
overhead-aes_reader option k = ground arith

overhead-chacha_reader : (option : ℕ) (k : Keys) → overhead (chacha_reader option k) ≡ 16
unfolding chacha_reader
overhead-chacha_reader option k = ground arith

-- ReaderOverhead is what the outermost layer of the reader needs, for every reader that is made.
reader_overhead-create_reader :
    (security option : ℕ) (has_stream : Bool) (k : Keys) (l : Layers)
    → create_reader security option has_stream k ≡ some l
    → reader_overhead security option ≡ overhead l
unfolding reader_overhead create_reader
reader_overhead-create_reader security option has_stream k l e = ground (
  arith,
  overhead-none_reader option k,
  overhead-legacy_reader option has_stream k,
  overhead-aes_reader option k,
  overhead-chacha_reader option k,
)
