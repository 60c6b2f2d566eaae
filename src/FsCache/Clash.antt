-- ===== src/FsCache/Clash.antt =====
-- Keys of which one's file is wanted where the other's needs a directory.
use httpcache.Base.{
  ℕ, ◌*◌, ◌<◌, ◌≡◌, refl, true, false, List, [], ◌∷◌, ◌++◌, Option, none, some, length, arith,
  Bool-cases, Option-cases, inl, inr,
}
use httpcache.Bytes.{Bytes, str_eq_iff, str_eq_refl}
use httpcache.Dict
use httpcache.Dict.{get-put}
use httpcache.FsCache.{FsCache, Disk, Os, encrypted, write_created, write_file, write_sealed, set}
use httpcache.FsCache.Encrypt.{Aead}
use httpcache.FsCache.Files.{Tree, parents, mem, blocked, mkdir_all, create}
use httpcache.FsCache.Files.Laws.{mkdir_all_lem, dirs-mkdir_all, mem-parents_append}
use httpcache.FsCache.Namer.{fragment_file_name}
use httpcache.FsCache.Namer.Clash.{fragment_file_name-append}
use httpcache.Store.{done, broken}

-- A directory stays.
mkdir_all_keeps :
    (q : Bytes) (ps : List Bytes) (t : Tree)
    → mem q t.dirs ≡ true
    → mem q (mkdir_all ps t).1.dirs ≡ true
unfolding mkdir_all mem
mkdir_all_keeps q [] t h = h
mkdir_all_keeps q (p ∷ ps) t h =
    ground (arith, mkdir_all_keeps q ps (record t { dirs = p ∷ t.dirs }))

create_dir : (n : Bytes) (t : Tree) → mem n t.dirs ≡ true → create n t ≡ none
unfolding create
create_dir [] t h = refl
create_dir (c ∷ s) t h = rw h refl

blocked_file :
    (p : Bytes) (ps : List Bytes) (t : Tree)
    → mem p ps ≡ true
    → Dict.has p t.files ≡ true
    → blocked ps t ≡ true
unfolding blocked mem
blocked_file p [] t h k = ground arith
blocked_file p (q ∷ ps) t h k = ground (arith, blocked_file p ps t, str_eq_iff p q)

module _ (os : Os) where
  -- A file is not written where a directory stands.
  write_file_on_dir :
      (n v : Bytes) (t : Tree) → mem n t.dirs ≡ true → (write_file os n v t).0 ≡ broken
  unfolding write_file write_created
  write_file_on_dir n v t h =
      let t' = (mkdir_all (parents n) t).1 in
      ground (arith, create_dir n t' (mkdir_all_keeps n (parents n) t h))

  -- Nor below a file.
  write_file_below :
      (p n v : Bytes) (t : Tree)
      → mem p (parents n) ≡ true
      → Dict.has p t.files ≡ true
      → (write_file os n v t).0 ≡ broken
  unfolding write_file
  write_file_below p n v t h k =
      ground (arith, mkdir_all_lem (parents n) t, blocked_file p (parents n) t h k)

  -- What was written leaves the directories, and its file.
  write_created_leaves :
      (n v : Bytes) (t : Tree)
      → let w = write_created os n v (create n t) t in
        w.0 ≡ done → (w.1.dirs ≡ t.dirs) × (Dict.has n w.1.files ≡ true)
  unfolding write_created create Dict.has
  write_created_leaves [] v t e = ground arith
  write_created_leaves (c ∷ s) v t e =
      let n = c ∷ s in
      elim (Bool-cases (mem n t.dirs)) [
        | inl there ↦ ground arith
        | inr free ↦ elim (Option-cases (os.torn n v)) [
          | inl whole ↦
              rw (free, whole)
                (refl, ground (arith, get-put n n v (Dict.put n [] t.files), str_eq_refl n))
          | inr (m, cut) ↦ ground arith
        ]
      ]

  write_file_leaves :
      (p n v : Bytes) (t : Tree)
      → let w = write_file os n v t in
        w.0 ≡ done
        → (mem p (parents n) ≡ true → mem p w.1.dirs ≡ true) × (Dict.has n w.1.files ≡ true)
  unfolding write_file
  write_file_leaves p n v t e =
      let t' = (mkdir_all (parents n) t).1 in
      let free : (mkdir_all (parents n) t).0 ≡ true → blocked (parents n) t ≡ false =
        λ m. ground (arith, mkdir_all_lem (parents n) t) in
      ground (arith, write_created_leaves n v t', free, dirs-mkdir_all p (parents n) t)

  write_sealed_broken :
      (k : Bytes) (sealed : Option Bytes) (d : Disk)
      → ((e : Bytes) → (write_file os (fragment_file_name k) e d.tree).0 ≡ broken)
      → (write_sealed os k sealed d).0 ≡ broken
  unfolding write_sealed
  write_sealed_broken k none d h = refl
  write_sealed_broken k (some e) d h = h e

  write_sealed_leaves :
      (p k : Bytes) (sealed : Option Bytes) (d : Disk)
      → let w = write_sealed os k sealed d in
        w.0 ≡ done
        → (mem p (parents (fragment_file_name k)) ≡ true → mem p w.1.tree.dirs ≡ true)
          × (Dict.has (fragment_file_name k) w.1.tree.files ≡ true)
  unfolding write_sealed
  write_sealed_leaves p k none d e = ground arith
  write_sealed_leaves p k (some v) d e = write_file_leaves p (fragment_file_name k) v d.tree e

  module _ (c : FsCache) where
    tree-encrypted :
        (enc : Option Aead) (v : Bytes) (d : Disk) → (encrypted os enc v d).1.tree ≡ d.tree
    tree-encrypted none v d = refl
    tree-encrypted (some gcm) v d = refl

    set_broken :
        (k v : Bytes) (d : Disk)
        → ((e : Bytes) → (write_file os (fragment_file_name k) e d.tree).0 ≡ broken)
        → (set os c k v d).0 ≡ broken
    unfolding set
    set_broken k v d h =
        let (sealed, d') = encrypted os c.enc v d in
        write_sealed_broken k sealed d' (λ e. rw (tree-encrypted c.enc v d) (h e))

    -- What a Set that succeeds leaves: its file, and the directories above.
    set_leaves :
        (p k v : Bytes) (d : Disk)
        → let w = set os c k v d in
          w.0 ≡ done
          → (mem p (parents (fragment_file_name k)) ≡ true → mem p w.1.tree.dirs ≡ true)
            × (Dict.has (fragment_file_name k) w.1.tree.files ≡ true)
    unfolding set
    set_leaves p k v d =
        let (sealed, d') = encrypted os c.enc v d in write_sealed_leaves p k sealed d'

    -- A key whose file's name is cut into whole fragments, and a longer key that starts with it, are
    -- not stored together: after a Set of either that succeeds, a Set of the other one fails.
    pub set-clash :
        (m : ℕ) (key more v w : Bytes) (d : Disk)
        → length key ≡ 36 * m
        → 5 < m
        → 0 < length more
        → let longer = set os c (key ++ more) w d in
          let shorter = set os c key v d in
          (longer.0 ≡ done → (set os c key v longer.1).0 ≡ broken)
          × (shorter.0 ≡ done → (set os c (key ++ more) w shorter.1).0 ≡ broken)
    set-clash m key more v w d e big some_more =
        let n = fragment_file_name key in
        let below : mem n (parents (fragment_file_name (key ++ more))) ≡ true =
          rw (fragment_file_name-append m key more e big some_more) (mem-parents_append n _) in
        (
          λ ok.
              set_broken key v (set os c (key ++ more) w d).1
                (λ x. write_file_on_dir n x _ ((set_leaves n (key ++ more) w d ok).0 below)),
          λ ok. set_broken (key ++ more) w (set os c key v d).1 (λ x.
              write_file_below n (fragment_file_name (key ++ more)) x _ below
                (set_leaves n key v d ok).1),
        )
