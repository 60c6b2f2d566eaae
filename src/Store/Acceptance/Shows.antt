-- ===== src/Store/Acceptance/Shows.antt =====
-- What the tests of store/acceptance/acceptance.go show of a backend that passes them.
use httpcache.Base.{◌≡◌}
use httpcache.Bytes.{Bytes, codes}
use httpcache.Store.{found, not_exist, done, missing, Conn}
use httpcache.Store.Acceptance.{foo, absent}

-- What each test but that of the keys checks, on a new backend.
pub record Shown {S : Type 0} (conn : Conn S) (s : S) : Type 0 where
  pub set_done : (conn.set foo (codes "bar") s).0 ≡ done
  pub set_read : conn.get foo (conn.set foo (codes "bar") s).1 ≡ found (codes "bar")
  pub overwritten :
      conn.get foo (conn.set foo (codes "baz") (conn.set foo (codes "bar") s).1).1
      ≡ found (codes "baz")
  pub deleted : (conn.delete foo (conn.set foo (codes "bar") s).1).0 ≡ done
  pub gone : conn.get foo (conn.delete foo (conn.set foo (codes "bar") s).1).1 ≡ not_exist
  pub never_there : conn.get absent s ≡ not_exist
  pub not_deleted : (conn.delete absent s).0 ≡ missing
