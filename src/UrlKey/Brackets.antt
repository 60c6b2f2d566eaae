-- ===== src/UrlKey/Brackets.antt =====
-- pkg/urlkey/urlkey.go and internal/urlutil/urlutil.go on hosts in brackets, which are IPv6 addresses.
use mathlib.Core.List.{map-append}
use httpcache.Base.{
  ℕ, ◌≡◌, refl, sym, ap, ◌∙◌, true, false, [], ◌∷◌, ◌++◌, Option, none, some, arith, append_assoc,
  length, length-append, Bool-cases, inl, inr,
}
use httpcache.Bytes.{Bytes, codes, str_eq, str_eq_iff}
use httpcache.Http.{Url}
use httpcache.Origin.{
  default_port, split_last, all_digits, valid_optional_port, drop_last_bracket, strip_brackets,
  split_host_port, lower, to_lower, equal_fold, same_origin,
}
use httpcache.UrlKey.{
  normalized_key, port_suffix, or_root, query_suffix, normalize_percent_encoding,
}

split_last_of_digits : (p : Bytes) → all_digits p ≡ true → split_last b':' p ≡ none
unfolding split_last all_digits
split_last_of_digits [] h = refl
split_last_of_digits (c ∷ p) h =
    let rest : all_digits p ≡ true = ground arith in rw (split_last_of_digits p rest) (ground arith)

split_last-bracket : (p : Bytes) → all_digits p ≡ true → split_last b':' (p ++ codes "]") ≡ none
unfolding split_last all_digits
split_last-bracket [] h = refl
split_last-bracket (c ∷ p) h =
    let rest : all_digits p ≡ true = ground arith in rw (split_last-bracket p rest) (ground arith)

split_last-append :
    (x p : Bytes) → split_last b':' p ≡ none → split_last b':' (x ++ b':' ∷ p) ≡ some (x, p)
unfolding split_last
split_last-append [] p h = rw h refl
split_last-append (b ∷ x) p h = rw (split_last-append x p h) refl

all_digits-bracket : (p : Bytes) → all_digits (p ++ codes "]") ≡ false
unfolding all_digits
all_digits-bracket [] = refl
all_digits-bracket (c ∷ p) = ground (arith, all_digits-bracket p)

drop_last_bracket-append : (a : Bytes) → drop_last_bracket (a ++ codes "]") ≡ some a
drop_last_bracket-append [] = refl
drop_last_bracket-append (c ∷ []) = refl
drop_last_bracket-append (c ∷ d ∷ a) = rw (drop_last_bracket-append (d ∷ a)) refl

strip_brackets-brackets : (a : Bytes) → strip_brackets (b'[' ∷ (a ++ codes "]")) ≡ a
unfolding strip_brackets
strip_brackets-brackets a = rw (drop_last_bracket-append a, strip_brackets) refl

to_lower_of_digits : (p : Bytes) → all_digits p ≡ true → to_lower p ≡ p
unfolding to_lower all_digits
to_lower_of_digits [] h = refl
to_lower_of_digits (c ∷ p) h =
    let rest : all_digits p ≡ true = ground arith in rw (to_lower_of_digits p rest) (ground arith)

-- The host of an address in brackets, with a port after it or with the same text inside.
abbrev pub outside : Bytes → Bytes → Bytes
outside a p = (b'[' ∷ (a ++ codes "]")) ++ b':' ∷ p

abbrev pub inside : Bytes → Bytes → Bytes
inside a p = b'[' ∷ ((a ++ b':' ∷ p) ++ codes "]")

abbrev pub at_host : Url → Bytes → Url
at_host u host = record u { host = host }

split_host_port-outside :
    (a p : Bytes) → all_digits p ≡ true → split_host_port (outside a p) ≡ (a, p)
unfolding split_host_port valid_optional_port
split_host_port-outside a p h =
    let last = split_last-append (b'[' ∷ (a ++ codes "]")) p (split_last_of_digits p h) in
    rw (last, h, strip_brackets-brackets a) refl

split_host_port-inside :
    (a p : Bytes) → all_digits p ≡ true → split_host_port (inside a p) ≡ (a ++ b':' ∷ p, [])
unfolding split_host_port valid_optional_port
split_host_port-inside a p h =
    let moved : inside a p ≡ (b'[' ∷ a) ++ b':' ∷ (p ++ codes "]") =
      ap (λ s. b'[' ∷ s) (append_assoc a (b':' ∷ p) (codes "]")) in
    let last = split_last-append (b'[' ∷ a) (p ++ codes "]") (split_last-bracket p h) in
    rw
      (
        ap (split_last b':') moved ∙ last,
        all_digits-bracket p,
        strip_brackets-brackets (a ++ b':' ∷ p),
      )
      refl

to_lower-append : (a p : Bytes) → to_lower (a ++ b':' ∷ p) ≡ to_lower a ++ b':' ∷ to_lower p
unfolding to_lower
to_lower-append a p = map-append lower a (b':' ∷ p)

-- A text is not one that is longer, whatever the case of its letters.
equal_fold_longer : (a p : Bytes) → equal_fold a (a ++ b':' ∷ p) ≡ false
unfolding equal_fold
equal_fold_longer a p = elim (Bool-cases (str_eq (to_lower a) (to_lower (a ++ b':' ∷ p)))) [
  | inl same ↦
      let e : to_lower a ≡ to_lower a ++ b':' ∷ to_lower p =
        (str_eq_iff (to_lower a) (to_lower (a ++ b':' ∷ p))).0 same ∙ to_lower-append a p in
      absurd (omega (arith, ap length e, length-append (to_lower a) (b':' ∷ to_lower p)))
  | inr other ↦ other
]

module _ (parse : Bytes → Option Url) (resolve_reference : Url → Url → Url)
    (escaped_path : Url → Bytes) where
  abbrev after_host : Url → Bytes → Bytes
  after_host u path =
      normalize_percent_encoding (or_root parse resolve_reference escaped_path u.scheme path)
      ++ query_suffix parse resolve_reference escaped_path u.raw_query

  key_of_parts :
      (u : Url) (host port : Bytes)
      → split_host_port u.host ≡ (host, port)
      → normalized_key parse resolve_reference escaped_path u
        ≡ u.scheme
          ++ (codes "://"
              ++ (to_lower host
                  ++ (port_suffix parse resolve_reference escaped_path port (default_port u.scheme)
                      ++ after_host u (escaped_path u))))
  unfolding normalized_key
  key_of_parts u host port e = rw e refl

  not_same_origin :
      (u v : Url) (host p port port' : Bytes)
      → split_host_port u.host ≡ (host, port)
      → split_host_port v.host ≡ (host ++ b':' ∷ p, port')
      → same_origin u v ≡ false
  unfolding same_origin
  not_same_origin u v host p port port' e e' =
      let hosts : equal_fold (split_host_port u.host).0 (split_host_port v.host).0 ≡ false =
        ap (λ h. equal_fold h.0 (split_host_port v.host).0) e
        ∙ ap (λ h. equal_fold host h.0) e'
        ∙ equal_fold_longer host p in
      ground (arith, hosts)

module _ (parse : Bytes → Option Url) (resolve_reference : Url → Url → Url)
    (escaped_path : Url → Bytes) (u : Url) (a : Bytes) (c : ℕ) (q : Bytes) where
  abbrev with_port : Url
  with_port = at_host u (outside a (c ∷ q))

  abbrev longer : Url
  longer = at_host u (inside a (c ∷ q))

  -- Two URLs that are not of the same origin have one key: an address in brackets with a port that
  -- is not the default one, and the address that has this port as its last group. Their escaped
  -- paths are the same.
  pub normalized_key-brackets :
      all_digits (c ∷ q) ≡ true
      → str_eq (c ∷ q) (default_port u.scheme) ≡ false
      → escaped_path (at_host u (outside a (c ∷ q))) ≡ escaped_path (at_host u (inside a (c ∷ q)))
      → (normalized_key parse resolve_reference escaped_path (at_host u (outside a (c ∷ q)))
          ≡ normalized_key parse resolve_reference escaped_path (at_host u (inside a (c ∷ q))))
        × (same_origin (at_host u (outside a (c ∷ q))) (at_host u (inside a (c ∷ q))) ≡ false)
  normalized_key-brackets h other path =
      let port = c ∷ q in
      let s₁ = split_host_port-outside a port h in
      let s₂ = split_host_port-inside a port h in
      let k₁ = key_of_parts parse resolve_reference escaped_path with_port a port s₁ in
      let k₂ = key_of_parts parse resolve_reference escaped_path longer (a ++ b':' ∷ port) [] s₂ in
      let lowered : to_lower (a ++ b':' ∷ port) ≡ to_lower a ++ b':' ∷ port =
        to_lower-append a port ∙ ap (λ s. to_lower a ++ b':' ∷ s) (to_lower_of_digits port h) in
      (
        rw (k₁, k₂, other, path, lowered)
            (ap (λ s. u.scheme ++ (codes "://" ++ s))
              (sym (
                append_assoc (to_lower a) (b':' ∷ port)
                  (after_host parse resolve_reference escaped_path u (escaped_path longer))))),
        not_same_origin parse resolve_reference escaped_path with_port longer a port port [] s₁ s₂,
      )
