-- ===== src/FsCache/Keys.antt =====
-- Which keys the backend on files lists.
use httpcache.Base.{
  ◌≡◌, refl, sym, ◌∙◌, true, ◌&&◌, List, [], ◌∷◌, map, some, if◌then◌else◌, arith, All,
}
use httpcache.Bytes.{Bytes, str_eq, str_eq_iff, str_eq_refl}
use httpcache.FsCache.{FsCache, Disk, Os, walking, listing, keys_of, keys, keys_in_time}
use httpcache.FsCache.Files.{Tree, mem}
use httpcache.FsCache.Namer.{fragment_file_name}
use httpcache.FsCache.Namer.RoundTrip.{file_name_to_key-file_name, fragment_file_name-injective}
use httpcache.FsCache.Refines.{IsQuiet}
use httpcache.Text.{has_prefix}
use httpcache.Text.Base64.RoundTrip.{IsByte}

-- The names of the files.
abbrev pub names : Tree → List Bytes
names t = map (λ f. f.0) t.files

-- Every name is the one of a key.
abbrev pub AllNamed : List Bytes → Type 0
AllNamed ns =
    (n : Bytes) → mem n ns ≡ true → (k : Bytes) × (All IsByte k × (n ≡ fragment_file_name k))

-- The walk comes to every file, and to nothing else.
abbrev pub IsWalk : Os → Type 0
IsWalk os = (n : Bytes) (ns : List Bytes) → mem n (os.walk ns) ≡ mem n ns

-- The keys that a list of names gives.
abbrev pub Lists : Bytes → List Bytes → List Bytes → Type 0
Lists prefix ns ks =
    (k : Bytes) → All IsByte k → mem k ks ≡ has_prefix prefix k && mem (fragment_file_name k) ns

mem_head : (n : Bytes) (ns : List Bytes) → mem n (n ∷ ns) ≡ true
unfolding mem
mem_head n ns = rw (str_eq_refl n) refl

mem_tail : (n m : Bytes) (ns : List Bytes) → mem n ns ≡ true → mem n (m ∷ ns) ≡ true
unfolding mem
mem_tail n m ns h = ground arith

keys_of_lem :
    (prefix : Bytes) (ns : List Bytes)
    → AllNamed ns
    → (ks : List Bytes) × ((keys_of prefix ns ≡ some ks) × Lists prefix ns ks)
unfolding keys_of mem
keys_of_lem prefix [] h = ([], (refl, λ k b. ground arith))
keys_of_lem prefix (n ∷ ns) h =
    let (key, (bytes, e)) = h n (mem_head n ns) in
    let (ks, (rest, listed)) = keys_of_lem prefix ns (λ m k. h m (mem_tail m n ns k)) in
    let same : (k : Bytes) → All IsByte k → str_eq (fragment_file_name k) n ≡ str_eq k key =
      λ k b. rw e (fragment_file_name-injective k key b bytes) in
    (
      (if has_prefix prefix key then key ∷ ks else ks),
      (
        rw (e, file_name_to_key-file_name key bytes, rest) refl,
        λ k b. ground (arith, same k b, listed k b, str_eq_iff k key),
      ),
    )

-- Where the system fails no call and every file is one of a key, Keys gives exactly the keys that
-- have a file and the prefix.
pub keys_in_time_lem :
    (os : Os) (c : FsCache) (prefix : Bytes) (d : Disk)
    → IsQuiet os
    → IsWalk os
    → AllNamed (names d.tree)
    → (ks : List Bytes) × ((keys_in_time os c prefix d ≡ some ks) × Lists prefix (names d.tree) ks)
unfolding keys_in_time keys
keys_in_time_lem os c prefix d quiet walk named =
    let ns = names d.tree in
    let (ks, (e, listed)) =
      keys_of_lem prefix (os.walk ns) (λ n h. named n (sym (walk n ns) ∙ h)) in
    (
      ks,
      (
        rw (quiet.in_time listing prefix d, quiet.no_fault walking [] d.tree) e,
        λ k b. rw (sym (walk (fragment_file_name k) ns)) (listed k b),
      ),
    )
