-- ===== src/FsCache/Namer/Limits.antt =====
-- How long the parts of a file's name are.
use httpcache.Base.{
  ℕ, zero, suc, ◌<◌, ◌≤◌, ◌≡◌, ◌≢◌, refl, ap, List, [], ◌∷◌, ◌++◌, leb, length, take, drop,
  length-take-le, length-drop, All, All-take, All-drop, arith, Bool-cases, inl, inr,
}
use httpcache.Bytes.{Bytes}
use httpcache.FsCache.Namer.{fragments, fragment_size, fragment_file_name, join_path}
use httpcache.Text.{join}
use httpcache.Text.Base64
use httpcache.Text.Base64.RoundTrip.{IsByte, IsPlain, encode-IsPlain, length-encode}
use httpcache.Text.{split}

-- A part that a file system takes: not empty, and of at most 255 bytes.
abbrev pub IsNameable : Bytes → Type 0
IsNameable p = (0 < length p) × (length p ≤ 255)

split_plain : (s : Bytes) → All IsPlain s → split b'/' s ≡ s ∷ []
unfolding split
split_plain [] h = refl
split_plain (c ∷ s) ((e, _, _), h) = rw (e, split_plain s h) refl

split-append : (s t : Bytes) → All IsPlain s → split b'/' (s ++ b'/' ∷ t) ≡ s ∷ split b'/' t
unfolding split
split-append [] t h = refl
split-append (c ∷ s) t ((e, _, _), h) = rw (e, split-append s t h) refl

with_part :
    (part : Bytes) (parts : List Bytes)
    → All IsPlain part
    → IsNameable part
    → (parts ≢ [] → All IsNameable (split b'/' (join_path parts)))
    → All IsNameable (split b'/' (join_path (part ∷ parts)))
unfolding join
with_part part [] plain h k = rw (split_plain part plain) (h, tt)
with_part part (q ∷ parts) plain h k =
    rw (split-append part (join_path (q ∷ parts)) plain)
      (h, k (λ e. absurd (omega (arith, ap length e))))

fragments_filled : (fuel : ℕ) (s : Bytes) → fragments fuel s ≢ [] → 0 < length s
unfolding fragments
fragments_filled fuel [] h = absurd (h refl)
fragments_filled fuel (c ∷ s) h = omega arith

fragments-IsNameable :
    (fuel : ℕ) (s : Bytes)
    → 0 < length s
    → length s ≤ fuel
    → All IsPlain s
    → All IsNameable (split b'/' (join_path (fragments fuel s)))
unfolding fragments
fragments-IsNameable fuel [] h k p = absurd (omega arith)
fragments-IsNameable zero (c ∷ s) h k p = absurd (omega arith)
fragments-IsNameable (suc fuel) (c ∷ s) h k p =
    let part = take fragment_size (c ∷ s) in
    let rest = drop fragment_size (c ∷ s) in
    let plain = All-take IsPlain fragment_size (c ∷ s) p in
    let nameable : IsNameable part =
      (omega arith, omega (arith, length-take-le fragment_size (c ∷ s))) in
    with_part part (fragments fuel rest) plain nameable (λ h'.
      fragments-IsNameable fuel rest (fragments_filled fuel rest h')
        (omega (arith, length-drop 47 s)) (All-drop IsPlain fragment_size (c ∷ s) p))

-- The name of every key that is not empty has parts of 1 to 255 bytes, however long the key is.
pub fragment_file_name-IsNameable :
    (key : Bytes)
    → All IsByte key
    → 0 < length key
    → All IsNameable (split b'/' (fragment_file_name key))
unfolding fragment_file_name
fragment_file_name-IsNameable key bytes h =
    let e = Base64.encode key in
    let plain = encode-IsPlain key bytes in
    let filled : 0 < length e = omega (arith, length-encode key) in
    elim (Bool-cases (leb (length e) 255)) [
      | inl short ↦ rw (short, split_plain e plain) ((filled, ground arith), tt)
      | inr long ↦ rw long (fragments-IsNameable (length e) e filled (omega arith) plain)
    ]
