-- ===== src/Uuid.antt =====
-- The type uuid.UUID of github.com/google/uuid, an array of 16 bytes that Go compares by `==`, and the
-- functions of that package which the program calls. The package is not part of the repository, so
-- the functions are a parameter of the code that uses them.
use project1_iot_server.Prelude.{ℕ, Bool, not, ◌&&◌, ◌||◌, Option, ◌==◌, replicate, Bytes, bytes_eq}

abbrev pub Uuid : Type 0
Uuid = Bytes

-- uuid.Nil
abbrev pub uuid_nil : Uuid
uuid_nil = replicate 16 0

pub record UuidLib : Type 0 where
  -- UUID.Version, and whether UUID.Variant is uuid.RFC4122
  pub version : Uuid → ℕ
  pub is_rfc4122 : Uuid → Bool
  -- uuid.Validate succeeds, uuid.Parse, UUID.String
  pub validates : Bytes → Bool
  pub parse : Bytes → Option Uuid
  pub format : Uuid → Bytes

-- The test of message identifiers: not nil, of version 4 or 7, of the RFC 4122 variant.
unfoldable pub valid_message_id : UuidLib → Uuid → Bool
valid_message_id u id =
    not (bytes_eq id uuid_nil) && (u.version id == 4 || u.version id == 7) && u.is_rfc4122 id
