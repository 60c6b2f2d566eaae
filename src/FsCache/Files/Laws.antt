-- ===== src/FsCache/Files/Laws.antt =====
-- What the operations of a tree do to a name that does not clash with theirs.
use httpcache.Base.{
  ℕ, ◌≡◌, ◌≢◌, refl, ap, ◌∙◌, Bool, true, false, ◌||◌, ◌&&◌, not, List, [], ◌∷◌, ◌++◌, map, some,
  if◌then◌else◌, arith,
}
use httpcache.Bytes.{Bytes, str_eq, str_eq_iff}
use httpcache.Dict
use httpcache.Dict.{Dict, get-put, get-remove}
use httpcache.FsCache.Files.{Tree, parents, mem, blocked, read_file, mkdir_all, create, remove}
use httpcache.Store.{found, not_exist, broken, done, missing}

-- Neither name is a directory of the other.
abbrev pub IsApart : Bytes → Bytes → Type 0
IsApart n m = (mem n (parents m) ≡ false) × (mem m (parents n) ≡ false)

-- A file can stand under a name: the name is not empty, no directory of it is a file, and it is no
-- directory itself.
unfoldable pub can_hold : Bytes → Tree → Bool
can_hold [] t = false
can_hold (c ∷ s) t = not (blocked (parents (c ∷ s)) t) && not (mem (c ∷ s) t.dirs)

files-mkdir_all : (ps : List Bytes) (t : Tree) → (mkdir_all ps t).1.files ≡ t.files
unfolding mkdir_all
files-mkdir_all [] t = refl
files-mkdir_all (p ∷ ps) t = ground (arith, files-mkdir_all ps (record t { dirs = p ∷ t.dirs }))

blocked-dirs :
    (ps : List Bytes) (t : Tree) (ds : List Bytes)
    → blocked ps (record t { dirs = ds }) ≡ blocked ps t
unfolding blocked
blocked-dirs [] t ds = refl
blocked-dirs (p ∷ ps) t ds = ap (λ b. Dict.has p t.files || b) (blocked-dirs ps t ds)

pub mkdir_all_lem : (ps : List Bytes) (t : Tree) → (mkdir_all ps t).0 ≡ not (blocked ps t)
unfolding mkdir_all blocked
mkdir_all_lem [] t = refl
mkdir_all_lem (p ∷ ps) t =
    let t' = record t { dirs = p ∷ t.dirs } in
    ground (arith, mkdir_all_lem ps t', blocked-dirs ps t (p ∷ t.dirs))

pub dirs-mkdir_all :
    (q : Bytes) (ps : List Bytes) (t : Tree)
    → blocked ps t ≡ false
    → mem q (mkdir_all ps t).1.dirs ≡ mem q ps || mem q t.dirs
unfolding mkdir_all blocked mem
dirs-mkdir_all q [] t h = refl
dirs-mkdir_all q (p ∷ ps) t h =
    let t' = record t { dirs = p ∷ t.dirs } in
    ground (arith, dirs-mkdir_all q ps t', blocked-dirs ps t (p ∷ t.dirs))

blocked-put :
    (n v : Bytes) (ps : List Bytes) (t : Tree)
    → mem n ps ≡ false
    → blocked ps (record t { files = Dict.put n v t.files }) ≡ blocked ps t
unfolding blocked mem Dict.has
blocked-put n v [] t h = refl
blocked-put n v (p ∷ ps) t h = ground (arith, blocked-put n v ps t, get-put n p v t.files)

blocked-remove :
    (n : Bytes) (ps : List Bytes) (t : Tree)
    → mem n ps ≡ false
    → blocked ps (record t { files = Dict.remove n t.files }) ≡ blocked ps t
unfolding blocked mem Dict.has
blocked-remove n [] t h = refl
blocked-remove n (p ∷ ps) t h = ground (arith, blocked-remove n ps t, get-remove n p t.files)

-- A name is longer than its directories.
mem-map : (c : ℕ) (p q : Bytes) (ps : List Bytes) → mem (c ∷ p) (map (λ r. c ∷ r) ps) ≡ mem p ps
unfolding mem str_eq
mem-map c p q [] = refl
mem-map c p q (r ∷ ps) = ground (arith, mem-map c p q ps)

-- What stands before a separator is a directory of the name.
pub mem-parents_append : (p s : Bytes) → mem p (parents (p ++ b'/' ∷ s)) ≡ true
unfolding parents mem str_eq
mem-parents_append [] s = refl
mem-parents_append (c ∷ p) s =
    ground (arith, mem-parents_append p s, mem-map c p p (parents (p ++ b'/' ∷ s)))

parents_self : (n : Bytes) → mem n (parents n) ≡ false
unfolding parents mem str_eq
parents_self [] = refl
parents_self (c ∷ s) = ground (arith, parents_self s, mem-map c s s (parents s))

-- The tree after a file is written under a name.
abbrev pub placed : Bytes → Bytes → Tree → Tree
placed n v t = record { files = Dict.put n v t.files; dirs = (mkdir_all (parents n) t).1.dirs }

-- Directories are made, the file is created, and nothing else changes.
pub create-mkdir_all :
    (n : Bytes) (t : Tree)
    → can_hold n t ≡ true
    → ((mkdir_all (parents n) t).0 ≡ true)
      × (create n (mkdir_all (parents n) t).1 ≡ some (placed n [] t))
unfolding can_hold create
create-mkdir_all [] t h = ground arith
create-mkdir_all (c ∷ s) t h =
    let n = c ∷ s in
    let free : blocked (parents n) t ≡ false = ground arith in
    let dir : mem n (mkdir_all (parents n) t).1.dirs ≡ false =
      ground (arith, dirs-mkdir_all n (parents n) t free, parents_self n) in
    (ground (arith, mkdir_all_lem (parents n) t), rw (dir, files-mkdir_all (parents n) t) refl)

blocked-placed :
    (n v : Bytes) (ps : List Bytes) (t : Tree)
    → mem n ps ≡ false
    → blocked ps (placed n v t) ≡ blocked ps t
blocked-placed n v ps t h =
    blocked-dirs ps (record t { files = Dict.put n v t.files }) _ ∙ blocked-put n v ps t h

-- A file that was written is read, and what is read under a name apart stays.
pub read_file-placed :
    (n m v : Bytes) (t : Tree)
    → can_hold n t ≡ true
    → IsApart n m
    → read_file m (placed n v t) ≡ (if str_eq n m then found v else read_file m t)
unfolding can_hold read_file
read_file-placed [] m v t h k = ground arith
read_file-placed (c ∷ s) [] v t h k = unfold str_eq in refl
read_file-placed (c ∷ s) (d ∷ r) v t h (k, l) =
    let n = c ∷ s in
    let m = d ∷ r in
    let free : blocked (parents n) t ≡ false = ground arith in
    ground (
      arith,
      blocked-placed n v (parents m) t k,
      dirs-mkdir_all m (parents n) t free,
      get-put n m v t.files,
      str_eq_iff n m,
    )

-- Where a file can stand, Remove gives no other error than ErrNotExist, and what was removed is not
-- found.
pub read_file-remove :
    (n m : Bytes) (t : Tree)
    → can_hold n t ≡ true
    → IsApart n m
    → ((remove n t).0 ≢ broken)
      × (read_file m (remove n t).1 ≡ (if str_eq n m then not_exist else read_file m t))
unfolding can_hold read_file remove Dict.has
read_file-remove [] m t h k = absurd (ground arith)
read_file-remove (c ∷ s) [] t h k = (ground arith, unfold str_eq in refl)
read_file-remove (c ∷ s) (d ∷ r) t h (k, l) =
    let n = c ∷ s in
    let m = d ∷ r in
    (
      ground arith,
      ground (arith, blocked-remove n (parents m) t k, get-remove n m t.files, str_eq_iff n m),
    )

-- Remove succeeds where a file is read, and reports ErrNotExist where none is there.
pub remove_of_found :
    (n v : Bytes) (t : Tree) → can_hold n t ≡ true → read_file n t ≡ found v → (remove n t).0 ≡ done
unfolding can_hold read_file remove Dict.has
remove_of_found [] v t h r = absurd (ground arith)
remove_of_found (c ∷ s) v t h r = ground arith

pub remove_of_absent :
    (n : Bytes) (t : Tree)
    → can_hold n t ≡ true
    → read_file n t ≡ not_exist
    → (remove n t).0 ≡ missing
unfolding can_hold read_file remove Dict.has
remove_of_absent [] t h r = absurd (ground arith)
remove_of_absent (c ∷ s) t h r = ground arith
