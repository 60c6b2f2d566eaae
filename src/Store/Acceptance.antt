-- ===== src/Store/Acceptance.antt =====
-- store/acceptance/acceptance.go: the tests that a backend must pass, on a new and empty backend. The
-- assertions of testing.T end a test at the first that fails.
pub mod Passes
pub mod Shows
use httpcache.Base.{
  ℕ, zero, suc, Bool, true, false, List, [], ◌∷◌, ◌++◌, Option, none, some, if◌then◌else◌,
}
use httpcache.Bytes.{Bytes, codes, str_eq}
use httpcache.Store.{Got, found, not_exist, failed, Done, done, missing, broken, Conn}
use httpcache.Vary.Normalize.{sort}

pub data Verdict : Type 0 where
  pass fail skip : Verdict

-- An assertion, and what follows it.
abbrev pub assert : Bool → Verdict → Verdict
assert true v = v
assert false v = fail

-- RequireNoError
abbrev pub is_done : Done → Bool
is_done done = true
is_done missing = false
is_done broken = false

-- RequireErrorIs with ErrNotExist, for Delete and for Get
abbrev pub is_not_exist : Done → Bool
is_not_exist done = false
is_not_exist missing = true
is_not_exist broken = false

abbrev pub is_absent : Got → Bool
is_absent (found v) = false
is_absent not_exist = true
is_absent failed = false

-- RequireNoError of Get, and bytes.Equal
abbrev pub is_value : Bytes → Got → Bool
is_value v (found w) = str_eq w v
is_value v not_exist = false
is_value v failed = false

abbrev pub foo : Bytes
foo = codes "foo"

abbrev pub absent : Bytes
absent = codes "doesnotexist"

-- strings.Repeat
unfoldable pub repeated : Bytes → ℕ → Bytes
repeated s zero = []
repeated s (suc n) = s ++ repeated s n

abbrev pub long_name : Bytes
long_name = codes "baz" ++ repeated (codes "x") 255

-- slices.Equal
unfoldable pub keys_eq : List Bytes → List Bytes → Bool
keys_eq [] [] = true
keys_eq (k ∷ ks) (l ∷ ls) = if str_eq k l then keys_eq ks ls else false
keys_eq [] (l ∷ ls) = false
keys_eq (k ∷ ks) [] = false

abbrev value_for : Bytes → Bytes
value_for key = codes "value for " ++ key

abbrev same_keys : List Bytes → Option (List Bytes) → Verdict
same_keys keys none = fail
same_keys keys (some listed) = assert (keys_eq (sort listed) (sort keys)) pass

abbrev pub test_keys_list : List Bytes
test_keys_list = foo ∷ codes "bar" ∷ long_name ∷ []

module _ {S : Type 0} (conn : Conn S) where
  -- testSetAndGet
  unfoldable pub test_set_and_get : S → Verdict
  test_set_and_get s =
      let (error, s') = conn.set foo (codes "bar") s in
      assert (is_done error) (assert (is_value (codes "bar") (conn.get foo s')) pass)

  -- testOverwrite
  unfoldable pub test_overwrite : S → Verdict
  test_overwrite s =
      let (error, s') = conn.set foo (codes "bar") s in
      let (error', s'') = conn.set foo (codes "baz") s' in
      assert (is_done error)
        (assert (is_done error') (assert (is_value (codes "baz") (conn.get foo s'')) pass))

  -- testDelete
  unfoldable pub test_delete : S → Verdict
  test_delete s =
      let (error, s') = conn.set foo (codes "bar") s in
      let (error', s'') = conn.delete foo s' in
      assert (is_done error) (assert (is_done error') (assert (is_absent (conn.get foo s'')) pass))

  -- testGetNonexistent
  unfoldable pub test_get_nonexistent : S → Verdict
  test_get_nonexistent s = assert (is_absent (conn.get absent s)) pass

  -- testDeleteNonexistent
  unfoldable pub test_delete_nonexistent : S → Verdict
  test_delete_nonexistent s = assert (is_not_exist (conn.delete absent s).0) pass

  -- The loop of testKeys over the keys, and what follows it.
  unfoldable pub set_each : List Bytes → (S → Verdict) → S → Verdict
  set_each [] next s = next s
  set_each (key ∷ keys) next s =
      let (error, s') = conn.set key (value_for key) s in
      assert (is_done error) (set_each keys next s')

  -- testKeys; the lister is that of a backend which is a KeyLister
  unfoldable pub test_keys : Option (Bytes → S → Option (List Bytes)) → S → Verdict
  test_keys none s = skip
  test_keys (some list_keys) s =
      set_each test_keys_list (λ s'. same_keys test_keys_list (list_keys [] s')) s

  -- Run, on a new backend for each test
  unfoldable pub run : Option (Bytes → S → Option (List Bytes)) → S → List Verdict
  run lister s =
      test_set_and_get s
      ∷ test_overwrite s
      ∷ test_delete s
      ∷ test_get_nonexistent s
      ∷ test_delete_nonexistent s
      ∷ test_keys lister s
      ∷ []
