-- ===== src/Memcache.antt =====
-- store/memcache/memcache.go. Each method holds the lock from its start to its end and copies the
-- bytes, so a call is one step on a map of byte strings.
use httpcache.Base.{◌≡◌, refl, ◌≢◌, [], Option, none, some, arith, if◌then◌else◌}
use httpcache.Bytes.{Bytes, str_eq, str_eq_iff}
use httpcache.Dict
use httpcache.Dict.{Dict, get-put, get-remove}
use httpcache.Store.{Got, found, not_exist, Done, done, missing, broken, Conn, IsConn}

-- memCache
abbrev pub MemCache : Type 0
MemCache = Dict Bytes

-- Open
unfoldable pub empty : MemCache
empty = []

abbrev got : Option Bytes → Got
got none = not_exist
got (some v) = found v

-- Get
unfoldable pub get : Bytes → MemCache → Got
get k c = got (Dict.get k c)

-- Set
unfoldable pub set : Bytes → Bytes → MemCache → Done × MemCache
set k v c = (done, Dict.put k v c)

-- Delete
unfoldable pub delete : Bytes → MemCache → Done × MemCache
delete k c = if Dict.has k c then (done, Dict.remove k c) else (missing, c)

abbrev pub conn : Conn MemCache
conn = record { get = get; set = set; delete = delete }

get_set :
    (k j v : Bytes) (c : MemCache) → get j (set k v c).1 ≡ (if str_eq k j then found v else get j c)
unfolding get set
get_set k j v c = ground (arith, get-put k j v c)

delete_present : (k v : Bytes) (c : MemCache) → get k c ≡ found v → (delete k c).0 ≡ done
unfolding get delete Dict.has
delete_present k v c h = ground arith

delete_absent : (k : Bytes) (c : MemCache) → get k c ≡ not_exist → (delete k c).0 ≡ missing
unfolding get delete Dict.has
delete_absent k c h = ground arith

delete_not_broken : (k : Bytes) (c : MemCache) → (delete k c).0 ≢ broken
unfolding delete
delete_not_broken k c = ground arith

get_delete :
    (k j : Bytes) (c : MemCache)
    → get j (delete k c).1 ≡ (if str_eq k j then not_exist else get j c)
unfolding get delete Dict.has
get_delete k j c = ground (arith, get-remove k j c, str_eq_iff k j)

-- The memory cache keeps the laws of the interface: what is set is read and overwritten, what is
-- deleted is not found, Delete of a key that does not exist reports ErrNotExist, and other keys stay.
pub conn-IsConn : IsConn conn
conn-IsConn = record {
  set_done = λ k v c. unfold set in refl;
  get_set = get_set;
  delete_present = delete_present;
  delete_absent = delete_absent;
  delete_not_broken = delete_not_broken;
  get_delete = get_delete;
}
