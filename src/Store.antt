-- ===== src/Store.antt =====
-- store/driver/driver.go: the interface of a cache backend. An implementation keeps its state in `S`.
pub mod Acceptance
use httpcache.Base.{◌≡◌, ◌≢◌, if◌then◌else◌}
use httpcache.Bytes.{Bytes, str_eq}

-- The result of Get: the value, ErrNotExist, or another error.
pub data Got : Type 0 where
  found : Bytes → Got
  not_exist failed : Got

-- The error of Set and Delete: none, ErrNotExist, or another one.
pub data Done : Type 0 where
  done missing broken : Done

-- Conn
pub record Conn (S : Type 0) : Type 0 where
  pub get : Bytes → S → Got
  pub set : Bytes → Bytes → S → Done × S
  pub delete : Bytes → S → Done × S

-- What the interface documents, for a backend whose Set and Delete do not fail: Set overwrites,
-- Delete removes and reports ErrNotExist where the key does not exist, and other keys stay.
pub record IsConn {S : Type 0} (c : Conn S) : Type 0 where
  pub set_done : (k v : Bytes) (s : S) → (c.set k v s).0 ≡ done
  pub get_set :
      (k j v : Bytes) (s : S)
      → c.get j (c.set k v s).1 ≡ (if str_eq k j then found v else c.get j s)
  pub delete_present : (k v : Bytes) (s : S) → c.get k s ≡ found v → (c.delete k s).0 ≡ done
  pub delete_absent : (k : Bytes) (s : S) → c.get k s ≡ not_exist → (c.delete k s).0 ≡ missing
  pub delete_not_broken : (k : Bytes) (s : S) → (c.delete k s).0 ≢ broken
  pub get_delete :
      (k j : Bytes) (s : S)
      → c.get j (c.delete k s).1 ≡ (if str_eq k j then not_exist else c.get j s)

-- The same promises at a state, for a value under the key `k`, and for what is read under `j`.
pub record IsConnAt {S : Type 0} (c : Conn S) (k j v : Bytes) (s : S) : Type 0 where
  pub set_done : (c.set k v s).0 ≡ done
  pub get_set : c.get j (c.set k v s).1 ≡ (if str_eq k j then found v else c.get j s)
  pub delete_present : (w : Bytes) → c.get k s ≡ found w → (c.delete k s).0 ≡ done
  pub delete_absent : c.get k s ≡ not_exist → (c.delete k s).0 ≡ missing
  pub delete_not_broken : (c.delete k s).0 ≢ broken
  pub get_delete : c.get j (c.delete k s).1 ≡ (if str_eq k j then not_exist else c.get j s)
