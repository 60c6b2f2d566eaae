-- ===== src/Cache.antt =====
-- internal/responsecache.go: stored responses and references to them, on a cache backend.
use httpcache.Base.{Option, none, some}
use httpcache.Bytes.{Bytes}
use httpcache.Entry.{Stored, ResponseRefs}
use httpcache.Http.{Request}
use httpcache.Store.{Got, found, not_exist, failed, Done, broken, Conn}

-- Encoding and decoding of what is kept: Response.MarshalBinary and ParseResponse of entry.go, and
-- the JSON form of references. `none` is an error.
pub record Codec : Type 0 where
  pub marshal : Stored → Option Bytes
  pub parse : Bytes → Request → Option Stored
  pub marshal_refs : ResponseRefs → Option Bytes
  pub unmarshal_refs : Bytes → Option ResponseRefs

module _ {S : Type 0} (conn : Conn S) (codec : Codec) where
  abbrev parse_found : Request → Got → Option Stored
  parse_found req (found bytes) = codec.parse bytes req
  parse_found req not_exist = none
  parse_found req failed = none

  -- Get; `none` for an error
  unfoldable pub get : Bytes → Request → S → Option Stored
  get key req s = parse_found req (conn.get key s)

  abbrev set_bytes : Bytes → Option Bytes → S → Done × S
  set_bytes key none s = (broken, s)
  set_bytes key (some bytes) s = conn.set key bytes s

  -- Set
  unfoldable pub set : Bytes → Stored → S → Done × S
  set key entry s = set_bytes key (codec.marshal entry) s

  -- Delete
  unfoldable pub delete : Bytes → S → Done × S
  delete key s = conn.delete key s

  abbrev refs_found : Got → Option ResponseRefs
  refs_found (found bytes) = codec.unmarshal_refs bytes
  refs_found not_exist = none
  refs_found failed = none

  -- GetRefs; `none` for an error
  unfoldable pub get_refs : Bytes → S → Option ResponseRefs
  get_refs key s = refs_found (conn.get key s)

  -- SetRefs
  unfoldable pub set_refs : Bytes → ResponseRefs → S → Done × S
  set_refs key refs s = set_bytes key (codec.marshal_refs refs) s
