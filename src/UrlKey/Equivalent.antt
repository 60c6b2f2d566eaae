-- ===== src/UrlKey/Equivalent.antt =====
-- pkg/urlkey/urlkey.go beside sameOrigin of internal/helpers.go.
use httpcache.Base.{◌≡◌, refl, sym, ap, ◌∙◌, true, [], ◌∷◌, ◌++◌, ℕ, some, Option, arith}
use httpcache.Bytes.{Bytes, codes, str_eq_iff, str_eq_refl}
use httpcache.Http.{Url}
use httpcache.Origin.{
  default_port, split_host_port, to_lower, equal_fold, or_default, port_of, same_origin,
}
use httpcache.UrlKey.{
  opaque_or, key_from, normalize, normalized_key, port_suffix, or_root, query_suffix,
  normalize_percent_encoding,
}

-- What ResolveReference does with a URL that has a scheme.
pub record Resolved (resolve_reference : Url → Url → Url) (escaped_path : Url → Bytes)
    (clean : Bytes → Bytes) (base u : Url) : Type 0 where
  pub kept_scheme : (resolve_reference base u).scheme ≡ u.scheme
  pub kept_host : (resolve_reference base u).host ≡ u.host
  pub kept_query : (resolve_reference base u).raw_query ≡ u.raw_query
  pub cleaned : escaped_path (resolve_reference base u) ≡ clean (escaped_path u)

pub record RemovesDots (resolve_reference : Url → Url → Url) (escaped_path : Url → Bytes)
    : Type 0 where
  pub clean : Bytes → Bytes
  pub keeps :
      (c : ℕ) (scheme : Bytes) (base u : Url)
      → u.scheme ≡ c ∷ scheme
      → Resolved resolve_reference escaped_path clean base u

module _ (parse : Bytes → Option Url) (resolve_reference : Url → Url → Url)
    (escaped_path : Url → Bytes) where
  abbrev suffix : Bytes → Bytes → Bytes
  suffix = port_suffix parse resolve_reference escaped_path

  suffix_of_default : (default : Bytes) → suffix default default ≡ []
  suffix_of_default [] = refl
  suffix_of_default (c ∷ port) = rw (str_eq_refl (c ∷ port)) refl

  -- A missing port and the default one are left out alike.
  suffix-or_default :
      (port scheme : Bytes)
      → suffix (or_default port scheme) (default_port scheme) ≡ suffix port (default_port scheme)
  suffix-or_default [] scheme = suffix_of_default (default_port scheme)
  suffix-or_default (c ∷ port) scheme = refl

  abbrev key_of : Bytes → Bytes → Bytes → Bytes → Bytes → Bytes
  key_of scheme host port path query =
      scheme
      ++ (codes "://"
          ++ (host
              ++ (suffix port (default_port scheme)
                  ++ (normalize_percent_encoding
                        (or_root parse resolve_reference escaped_path scheme path)
                      ++ query_suffix parse resolve_reference escaped_path query))))

  -- The key is made of the scheme, the host in lower case, the effective port, the path and the
  -- query.
  normalized_key_lem :
      (u : Url)
      → normalized_key parse resolve_reference escaped_path u
        ≡ key_of u.scheme
            (to_lower (split_host_port u.host).0)
            (port_of u)
            (escaped_path u)
            u.raw_query
  unfolding normalized_key port_of
  normalized_key_lem u =
      ap
        (λ port.
          u.scheme
          ++ (codes "://"
              ++ (to_lower (split_host_port u.host).0
                  ++ (port
                      ++ (normalize_percent_encoding
                            (or_root parse resolve_reference escaped_path u.scheme (escaped_path u))
                          ++ query_suffix parse resolve_reference escaped_path u.raw_query)))))
        (sym (suffix-or_default (split_host_port u.host).1 u.scheme))

  same_origin_parts :
      (u v : Url)
      → same_origin u v ≡ true
      → (to_lower (split_host_port u.host).0 ≡ to_lower (split_host_port v.host).0)
        × (port_of u ≡ port_of v)
  unfolding same_origin equal_fold
  same_origin_parts u v same = (
    (str_eq_iff (to_lower (split_host_port u.host).0) (to_lower (split_host_port v.host).0)).0
        (ground arith),
    (str_eq_iff (port_of u) (port_of v)).0 (ground arith),
  )

  abbrev keyed : Url → Option Bytes
  keyed u =
      key_from parse resolve_reference escaped_path u (parse (u.scheme ++ (codes "://" ++ u.host)))

  normalize_parsed :
      (u base : Url)
      → u.opaque ≡ []
      → parse (u.scheme ++ (codes "://" ++ u.host)) ≡ some base
      → normalize parse resolve_reference escaped_path u
        ≡ some (normalized_key parse resolve_reference escaped_path (resolve_reference base u))
  unfolding normalize
  normalize_parsed u base o e =
      ap (λ s. opaque_or parse resolve_reference escaped_path s (keyed u)) o
      ∙ ap (key_from parse resolve_reference escaped_path u) e

  -- Normalize on a URL that is not opaque, where its scheme and host parse.
  normalize_resolved :
      (dots : RemovesDots resolve_reference escaped_path) (c : ℕ) (scheme : Bytes) (u base : Url)
      → u.scheme ≡ c ∷ scheme
      → u.opaque ≡ []
      → parse (u.scheme ++ (codes "://" ++ u.host)) ≡ some base
      → normalize parse resolve_reference escaped_path u
        ≡ some (
            key_of u.scheme
              (to_lower (split_host_port u.host).0)
              (port_of u)
              (dots.clean (escaped_path u))
              u.raw_query)
  unfolding port_of
  normalize_resolved dots c scheme u base s o e =
      let k = dots.keeps c scheme base u s in
      normalize_parsed u base o e
      ∙ ap (λ key. some key) (normalized_key_lem (resolve_reference base u))
      ∙ simp (k.kept_scheme, k.kept_host, k.kept_query, k.cleaned)

  -- Normalize gives the same key for two URLs of the same origin, with the same scheme, escaped path
  -- and query, whatever the case of the letters of their hosts and whether the default port is
  -- written or not. The URLs have a scheme and are not opaque, the scheme and host of each parse, and
  -- ResolveReference changes nothing but the path of a URL with a scheme.
  pub normalize-same_origin :
      (dots : RemovesDots resolve_reference escaped_path) (c : ℕ) (scheme : Bytes)
      (u v base base' : Url)
      → u.scheme ≡ c ∷ scheme
      → v.scheme ≡ c ∷ scheme
      → u.opaque ≡ []
      → v.opaque ≡ []
      → parse (u.scheme ++ (codes "://" ++ u.host)) ≡ some base
      → parse (v.scheme ++ (codes "://" ++ v.host)) ≡ some base'
      → escaped_path u ≡ escaped_path v
      → u.raw_query ≡ v.raw_query
      → same_origin u v ≡ true
      → normalize parse resolve_reference escaped_path u
        ≡ normalize parse resolve_reference escaped_path v
  normalize-same_origin dots c scheme u v base base' su sv ou ov bu bv path query same =
      let (host, port) = same_origin_parts u v same in
      normalize_resolved dots c scheme u base su ou bu
      ∙ rw (host, port, path, query, su, sv) refl
      ∙ sym (normalize_resolved dots c scheme v base' sv ov bv)
