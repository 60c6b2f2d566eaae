-- ===== src/FsCache/Namer/RoundTrip.antt =====
-- From a file's name back to its key.
use httpcache.Base.{
  ℕ, zero, suc, ◌≤◌, ◌≡◌, refl, sym, ap, ◌∙◌, false, List, [], ◌∷◌, ◌++◌, append-nil, some, leb,
  length, take, drop, arith, Bool-cases, inl, inr, All, append-take-drop, length-drop, All-take,
  All-drop,
}
use httpcache.Bytes.{Bytes, str_eq, str_eq_iff}
use httpcache.FsCache.Namer.{
  fragments, fragment_size, fragment_file_name, has_separator, remove_separators,
  fragmented_file_name_to_key, join_path,
}
use httpcache.Text.{join}
use httpcache.Text.Base64
use httpcache.Text.Base64.RoundTrip.{IsByte, IsPlain, encode-IsPlain, decode-encode}

remove_separators-append :
    (s t : Bytes) → All IsPlain s → remove_separators (s ++ t) ≡ s ++ remove_separators t
unfolding remove_separators
remove_separators-append [] t h = refl
remove_separators-append (c ∷ s) t ((e, _, _), h) = rw (e, remove_separators-append s t h) refl

remove_separators_plain : (s : Bytes) → All IsPlain s → remove_separators s ≡ s
unfolding remove_separators
remove_separators_plain [] h = refl
remove_separators_plain (c ∷ s) ((e, _, _), h) = rw (e, remove_separators_plain s h) refl

remove_separators_of_none : (s : Bytes) → has_separator s ≡ false → remove_separators s ≡ s
unfolding remove_separators has_separator
remove_separators_of_none [] h = refl
remove_separators_of_none (c ∷ s) h = ground (arith, remove_separators_of_none s)

remove_separators-join :
    (s : Bytes) (parts : List Bytes)
    → All IsPlain s
    → remove_separators (join_path (s ∷ parts)) ≡ s ++ remove_separators (join_path parts)
unfolding remove_separators join
remove_separators-join s [] h = remove_separators_plain s h ∙ sym (append-nil s)
remove_separators-join s (t ∷ parts) h = remove_separators-append s _ h

remove_separators-fragments :
    (fuel : ℕ) (s : Bytes)
    → length s ≤ fuel
    → All IsPlain s
    → remove_separators (join_path (fragments fuel s)) ≡ s
unfolding fragments remove_separators join
remove_separators-fragments fuel [] h p = refl
remove_separators-fragments zero (c ∷ s) h p = absurd (omega arith)
remove_separators-fragments (suc fuel) (c ∷ s) h p =
    let cut = drop fragment_size (c ∷ s) in
    remove_separators-join (take fragment_size (c ∷ s)) (fragments fuel cut)
      (All-take IsPlain fragment_size (c ∷ s) p)
    ∙ rw
        (remove_separators-fragments fuel cut (omega (arith, length-drop 47 s))
          (All-drop IsPlain fragment_size (c ∷ s) p))
        (append-take-drop fragment_size (c ∷ s))

remove_separators-fragment_file_name :
    (key : Bytes) → All IsByte key → remove_separators (fragment_file_name key) ≡ Base64.encode key
unfolding fragment_file_name
remove_separators-fragment_file_name key h =
    let e = Base64.encode key in
    let plain = encode-IsPlain key h in
    elim (Bool-cases (leb (length e) 255)) [
      | inl short ↦ rw short (remove_separators_plain e plain)
      | inr long ↦ rw long (remove_separators-fragments (length e) e (omega arith) plain)
    ]

decode-remove_separators :
    (name : Bytes) → fragmented_file_name_to_key name ≡ Base64.decode (remove_separators name)
unfolding fragmented_file_name_to_key
decode-remove_separators name = elim (Bool-cases (has_separator name)) [
  | inl some_there ↦ rw some_there refl
  | inr none_there ↦
      rw none_there (ap Base64.decode (sym (remove_separators_of_none name none_there)))
]

-- The key is read from the name of its file, for every key of bytes, whether the name is cut into
-- fragments or not.
pub file_name_to_key-file_name :
    (key : Bytes) → All IsByte key → fragmented_file_name_to_key (fragment_file_name key) ≡ some key
file_name_to_key-file_name key h =
    decode-remove_separators (fragment_file_name key)
    ∙ ap Base64.decode (remove_separators-fragment_file_name key h)
    ∙ decode-encode key h

-- Different keys have different files.
pub fragment_file_name-injective :
    (k j : Bytes)
    → All IsByte k
    → All IsByte j
    → str_eq (fragment_file_name k) (fragment_file_name j) ≡ str_eq k j
fragment_file_name-injective k j h l =
    let name = fragment_file_name in
    let names_eq = str_eq_iff (name k) (name j) in
    let keys_eq = str_eq_iff k j in
    let same : name k ≡ name j → k ≡ j = λ e.
      let read = ap fragmented_file_name_to_key e in
      let left = file_name_to_key-file_name k h in
      let right = file_name_to_key-file_name j l in grind arith in
    let back : k ≡ j → name k ≡ name j = λ e. ap name e in
    ground (arith, names_eq, keys_eq, same, back)
