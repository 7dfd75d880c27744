-- ===== src/Torrent/Peer.antt =====
-- The peers of the torrent client (`peer_t` of torrent/peer.h): what they keep, what they are sent, and
-- the code outside of the repository that they call.
pub mod Wire
pub mod Parse
pub mod Send
pub mod Store
pub mod Handle
pub mod Receive
pub mod Fields
pub mod Consume
pub mod Greet
pub mod Tests
pub mod Decode
use c_fs_subscriber.Base.{length, ℕ, Bool, true, false, Option, List}
use c_fs_subscriber.Pg.Bitarray.{Bitarray}
use c_fs_subscriber.Pg.Pool.{Pool}
use c_fs_subscriber.Pg.Ring.{Ring}
use c_fs_subscriber.Torrent.Metainfo.{Metainfo}
use c_fs_subscriber.Torrent.Picker.{Picker}

-- `PEER_HANDSHAKE_LENGTH`, `PEER_MAX_MESSAGE_LENGTH` and `PEER_MAX_IN_FLIGHT_REQUESTS`
abbrev pub handshake_length : ℕ
handshake_length = 68

abbrev pub max_message_length : ℕ
max_message_length = 134217728

abbrev pub max_in_flight_requests : ℕ
max_in_flight_requests = 5

pub data ErrorKind : Type 0 where
  no_error need_more uv wrong_handshake_header wrong_handshake_hash : ErrorKind
  invalid_announced_length invalid_message_tag invalid_bitfield invalid_have : ErrorKind
  invalid_piece os checksum_failed : ErrorKind

-- `err.kind > PEK_NEED_MORE`
abbrev pub is_fatal : ErrorKind → Bool
is_fatal no_error = false
is_fatal need_more = false
is_fatal _ = true

-- `err.kind != PEK_NONE`
abbrev pub is_error : ErrorKind → Bool
is_error no_error = false
is_error _ = true

pub data Action : Type 0 where
  no_action request_more stop_requesting : Action

-- A piece holds its chunk of the block pool, and the bytes that were written there.
pub data Message : Type 0 where
  no_message heartbeat choke unchoke interested uninterested : Message
  bitfield : List ℕ → Message
  have : ℕ → Message
  request : (index begin length : ℕ) → Message
  piece : (index begin chunk : ℕ) → List ℕ → Message
  cancel : (index begin length : ℕ) → Message

-- The file stands in the state of the world.
pub record Download : Type 0 where
  pub info_hash : List ℕ
  pub downloaded_pieces_count : ℕ
  pub downloaded_blocks_count : ℕ
  pub downloaded_bytes : ℕ
  pub start_ts : ℕ

-- The operating system, libuv and mbedtls: `S` is what they keep. An answer `false` is one of failure;
-- so is `none`, for the -1 of `write` and `read` and for a result of `mbedtls_sha1` that is not 0.
pub record World : Type 1 where
  pub S : Type 0
  -- `lseek(fd, offset, SEEK_SET)`
  pub seek : S → ℕ → Bool × S
  -- how many bytes were written
  pub write : S → List ℕ → Option ℕ × S
  -- the bytes that were read
  pub read : S → ℕ → Option (List ℕ) × S
  pub sha1 : List ℕ → Option (List ℕ)
  pub uv_write : S → List ℕ → Bool × S
  pub uv_read_start : S → Bool × S
  pub uv_hrtime : S → ℕ

-- The picker, the download and the world are shared between the peers. `idle` is whether the idle
-- handle runs, `closing` whether the connection is being closed.
pub record Peer (S : Type 0) : Type 0 where
  pub picker : Picker
  pub write_ctx_pool : Pool
  pub read_buf_pool : Pool
  pub block_pool : Pool
  pub download : Download
  pub metainfo : Metainfo
  pub them_have_pieces : Bitarray
  pub recv_data : Ring
  pub me_choked : Bool
  pub me_interested : Bool
  pub them_choked : Bool
  pub them_interested : Bool
  pub handshaked : Bool
  pub in_flight_requests : ℕ
  pub idle : Bool
  pub closing : Bool
  pub world : S
