-- ===== src/Tests/Suite.antt =====
-- The acceptance tests on the memory cache, with a lister of its keys.
use mathlib.Core.List.Perm
use mathlib.Core.List.{Perm}
use httpcache.Base.{List, [], ◌∷◌, Option, some}
use httpcache.Bytes.{Bytes}
use httpcache.Dict
use httpcache.Memcache
use httpcache.Memcache.{MemCache}

abbrev names : MemCache → List Bytes
names [] = []
names ((k, v) ∷ c) = k ∷ names c

abbrev list_all : Bytes → MemCache → Option (List Bytes)
list_all prefix c = some (names c)
