-- ===== src/FsCache/Files.antt =====
-- A tree of files, as os.Root shows it: the content of each file, and the directories. A name is a
-- path below the root, whose parts stand between separators.
pub mod Laws
use httpcache.Base.{
  Bool, true, false, ◌||◌, ◌&&◌, not, List, [], ◌∷◌, map, Option, none, some, ◌==◌, if◌then◌else◌,
}
use httpcache.Bytes.{Bytes, str_eq}
use httpcache.Dict
use httpcache.Dict.{Dict}
use httpcache.Store.{Got, found, not_exist, failed, Done, done, missing, broken}

pub record Tree : Type 0 where
  pub files : Dict Bytes
  pub dirs : List Bytes

-- The directories above a name, from the top.
unfoldable pub parents : Bytes → List Bytes
parents [] = []
parents (c ∷ s) =
    let below = map (λ p. c ∷ p) (parents s) in if c == b'/' then [] ∷ below else below

unfoldable pub mem : Bytes → List Bytes → Bool
mem p [] = false
mem p (q ∷ qs) = str_eq p q || mem p qs

-- A file stands where a directory is wanted.
unfoldable pub blocked : List Bytes → Tree → Bool
blocked [] t = false
blocked (p ∷ ps) t = Dict.has p t.files || blocked ps t

abbrev content : Bytes → Tree → Option Bytes → Got
content name t (some bytes) = found bytes
content name t none = if mem name t.dirs then failed else not_exist

-- Root.Open and io.ReadAll. The error is ErrNotExist only where nothing stands under the name: a
-- file among its directories (ENOTDIR) and a directory of that name (EISDIR) are other errors.
unfoldable pub read_file : Bytes → Tree → Got
read_file [] t = failed
read_file (c ∷ s) t =
    if blocked (parents (c ∷ s)) t then failed else content (c ∷ s) t (Dict.get (c ∷ s) t.files)

-- Root.MkdirAll: each directory from the top is made if it is missing.
unfoldable pub mkdir_all : List Bytes → Tree → Bool × Tree
mkdir_all [] t = (true, t)
mkdir_all (p ∷ ps) t =
    let made = mkdir_all ps (record t { dirs = p ∷ t.dirs }) in
    if Dict.has p t.files then (false, t) else made

-- Root.Create: the file is empty then; a directory of that name is an error.
unfoldable pub create : Bytes → Tree → Option Tree
create [] t = none
create (c ∷ s) t =
    if mem (c ∷ s) t.dirs then none else some (record t { files = Dict.put (c ∷ s) [] t.files })

abbrev any_below : Bytes → Dict Bytes → Bool
any_below p [] = false
any_below p ((name, _) ∷ files) = mem p (parents name) || any_below p files

abbrev any_dir_below : Bytes → List Bytes → Bool
any_dir_below p [] = false
any_dir_below p (q ∷ dirs) = mem p (parents q) || any_dir_below p dirs

unfoldable pub without : Bytes → List Bytes → List Bytes
without p [] = []
without p (q ∷ qs) = let rest = without p qs in if str_eq p q then rest else q ∷ rest

-- Whether something stands below a directory.
unfoldable pub has_below : Bytes → Tree → Bool
has_below p t = any_below p t.files || any_dir_below p t.dirs

-- Root.Remove: it removes a directory, too, if nothing stands below it.
unfoldable pub remove : Bytes → Tree → Done × Tree
remove [] t = (broken, t)
remove (c ∷ s) t =
    if blocked (parents (c ∷ s)) t
    then (broken, t)
    else if Dict.has (c ∷ s) t.files
    then (done, record t { files = Dict.remove (c ∷ s) t.files })
    else if not (mem (c ∷ s) t.dirs)
    then (missing, t)
    else if has_below (c ∷ s) t
    then (broken, t)
    else (done, record t { dirs = without (c ∷ s) t.dirs })
