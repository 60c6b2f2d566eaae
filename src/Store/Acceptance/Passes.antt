-- ===== src/Store/Acceptance/Passes.antt =====
-- store/acceptance/acceptance.go on a backend that does what the interface documents.
use mathlib.Core.List.Perm
use mathlib.Core.List.{Perm}
use httpcache.Base.{◌≡◌, refl, ◌∙◌, ◌++◌, true, List, [], ◌∷◌, Option, none, some, arith}
use httpcache.Bytes.{Bytes, codes, str_eq, str_eq_refl}
use httpcache.Store.{not_exist, Conn, IsConn}
use httpcache.Store.Acceptance.{
  pass, skip, foo, absent, long_name, keys_eq, test_set_and_get, test_overwrite, test_delete,
  test_get_nonexistent, test_delete_nonexistent, set_each, test_keys, test_keys_list, run,
}
use httpcache.Vary.Normalize.{sort}
use httpcache.Vary.Normalize.Order.{sort_of_perm}

-- A lister of keys: a key that is new is added, wherever in the list.
abbrev pub ListsKeys : {S : Type 0} → Conn S → (Bytes → S → Option (List Bytes)) → Type 0
ListsKeys {S} conn list_keys =
    (k v : Bytes) (s : S) (ks : List Bytes)
    → conn.get k s ≡ not_exist
    → list_keys [] s ≡ some ks
    → (ks' : List Bytes) × (list_keys [] (conn.set k v s).1 ≡ some ks') × Perm ks' (k ∷ ks)

keys_eq_refl : (ks : List Bytes) → keys_eq ks ks ≡ true
unfolding keys_eq
keys_eq_refl [] = refl
keys_eq_refl (k ∷ ks) = rw (str_eq_refl k) (keys_eq_refl ks)

module _ {S : Type 0} (conn : Conn S) (laws : IsConn conn) (s : S)
    (empty : (k : Bytes) → conn.get k s ≡ not_exist) where
  set_and_get_passes : test_set_and_get conn s ≡ pass
  unfolding test_set_and_get
  set_and_get_passes = ground (
    arith,
    laws.set_done foo (codes "bar") s,
    laws.get_set foo foo (codes "bar") s,
    str_eq_refl foo,
    str_eq_refl (codes "bar"),
  )

  overwrite_passes : test_overwrite conn s ≡ pass
  unfolding test_overwrite
  overwrite_passes =
      let s' = (conn.set foo (codes "bar") s).1 in
      ground (
        arith,
        laws.set_done foo (codes "bar") s,
        laws.set_done foo (codes "baz") s',
        laws.get_set foo foo (codes "baz") s',
        str_eq_refl foo,
        str_eq_refl (codes "baz"),
      )

  delete_passes : test_delete conn s ≡ pass
  unfolding test_delete
  delete_passes =
      let s' = (conn.set foo (codes "bar") s).1 in
      ground (
        arith,
        laws.set_done foo (codes "bar") s,
        laws.get_set foo foo (codes "bar") s,
        laws.delete_present foo (codes "bar") s',
        laws.get_delete foo foo s',
        str_eq_refl foo,
      )

  get_nonexistent_passes : test_get_nonexistent conn s ≡ pass
  unfolding test_get_nonexistent
  get_nonexistent_passes = rw (empty absent)

  delete_nonexistent_passes : test_delete_nonexistent conn s ≡ pass
  unfolding test_delete_nonexistent
  delete_nonexistent_passes = rw (laws.delete_absent absent s (empty absent))

  module _ (list_keys : Bytes → S → Option (List Bytes)) (lists : ListsKeys conn list_keys)
      (none_listed : list_keys [] s ≡ some []) where
    keys_passes : test_keys conn (some list_keys) s ≡ pass
    unfolding test_keys set_each str_eq
    keys_passes =
        let bar = codes "bar" in
        let v₁ = codes "value for " ++ foo in
        let v₂ = codes "value for " ++ bar in
        let v₃ = codes "value for " ++ long_name in
        let s₁ = (conn.set foo v₁ s).1 in
        let s₂ = (conn.set bar v₂ s₁).1 in
        let (ks₁, l₁, p₁) = lists foo v₁ s [] (empty foo) none_listed in
        let bar_new : conn.get bar s₁ ≡ not_exist = laws.get_set foo bar v₁ s ∙ empty bar in
        let (ks₂, l₂, p₂) = lists bar v₂ s₁ ks₁ bar_new l₁ in
        let long_new : conn.get long_name s₂ ≡ not_exist =
          laws.get_set bar long_name v₂ s₁ ∙ (laws.get_set foo long_name v₁ s ∙ empty long_name) in
        let (ks₃, l₃, p₃) = lists long_name v₃ s₂ ks₂ long_new l₂ in
        let all : Perm ks₃ (long_name ∷ bar ∷ foo ∷ []) =
          Perm.trans p₃ (Perm.cons long_name (Perm.trans p₂ (Perm.cons bar p₁))) in
        let turned : Perm (long_name ∷ bar ∷ foo ∷ []) test_keys_list =
          Perm.trans (Perm.swap bar long_name (foo ∷ [])) (
            Perm.trans (Perm.cons bar (Perm.swap foo long_name []))
              (Perm.swap foo bar (long_name ∷ []))) in
        rw (laws.set_done foo v₁ s, laws.set_done bar v₂ s₁, laws.set_done long_name v₃ s₂, l₃)
          (rw (sort_of_perm ks₃ test_keys_list (Perm.trans all turned))
            (rw (keys_eq_refl (sort test_keys_list))))

    -- A backend that does what the interface documents, and lists its keys if it is a KeyLister,
    -- passes every test of the suite on a new and empty state; without a lister the test of the keys
    -- is skipped.
    pub run_lem :
        (run conn (some list_keys) s ≡ pass ∷ pass ∷ pass ∷ pass ∷ pass ∷ pass ∷ [])
        × (run conn none s ≡ pass ∷ pass ∷ pass ∷ pass ∷ pass ∷ skip ∷ [])
    unfolding run test_keys
    run_lem = (
      rw
          (
            set_and_get_passes, overwrite_passes, delete_passes, get_nonexistent_passes,
            delete_nonexistent_passes, keys_passes,
          )
          refl,
      rw
          (
            set_and_get_passes, overwrite_passes, delete_passes, get_nonexistent_passes,
            delete_nonexistent_passes,
          )
          refl,
    )
