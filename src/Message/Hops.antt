-- ===== src/Message/Hops.antt =====
-- Which fields a stored response loses, and which a confirmation replaces.
use httpcache.Base.{
  Bool, ◌||◌, ◌++◌, map, ap, ◌∙◌, All, ◌≡◌, refl, List, [], ◌∷◌, Option, none, some, arith,
  if◌then◌else◌,
}
use httpcache.Bytes.{Bytes, codes, str_eq, str_eq_iff}
use httpcache.Dict
use httpcache.Dict.{get-put, get-remove}
use httpcache.Http
use httpcache.Text.{join}
use httpcache.Text.Csv.Parts.{IsPart, trimmed_csv-join}
use httpcache.Http.{canonical_key, Header, Response}
use httpcache.Message.{
  hop_fields, trimmed_csv_canonical, contains, remove_all, hop_by_hop_headers,
  remove_hop_by_hop_headers, merge_fields, merge_response_headers,
}

get-remove_all :
    (ks : List Bytes) (h : Header) (j : Bytes)
    → Dict.get j (remove_all ks h) ≡ (if contains ks j then none else Dict.get j h)
unfolding remove_all contains
get-remove_all [] h j = refl
get-remove_all (k ∷ ks) h j =
    ground (arith, get-remove_all ks (Dict.remove k h) j, get-remove k j h)

contains-append :
    (ks js : List Bytes) (k : Bytes) → contains (ks ++ js) k ≡ (contains ks k || contains js k)
unfolding contains
contains-append [] js k = refl
contains-append (i ∷ ks) js k = ground (arith, contains-append ks js k)

-- The names that are hop-by-hop in every response. TE stands among them as it is written, which is
-- no canonical name.
abbrev pub is_hop_name : Bytes → Bool
is_hop_name j =
    str_eq (codes "Connection") j
    || str_eq (codes "Proxy-Connection") j
    || str_eq (codes "Keep-Alive") j
    || str_eq (codes "TE") j
    || str_eq (codes "Transfer-Encoding") j
    || str_eq (codes "Upgrade") j
    || str_eq (codes "Proxy-Authenticate") j
    || str_eq (codes "Proxy-Authentication-Info") j
    || str_eq (codes "Proxy-Authorization") j

contains-hop_fields : (j : Bytes) → contains hop_fields j ≡ is_hop_name j
unfolding contains
contains-hop_fields j = ground arith

-- removeHopByHopHeaders removes the fields of nine names and those that Connection lists, under
-- their canonical names, and keeps every other field. The list is parts joined by commas, each
-- trimmed and with its quotes closed.
pub get-remove_hop_by_hop_headers :
    (resp : Response) (listed : List Bytes) (j : Bytes)
    → Http.get (codes "Connection") resp.header ≡ join (codes ",") listed
    → All IsPart listed
    → Dict.get j (remove_hop_by_hop_headers resp).header ≡ (
        if is_hop_name j || contains (map canonical_key listed) j
        then none
        else Dict.get j resp.header)
unfolding remove_hop_by_hop_headers hop_by_hop_headers trimmed_csv_canonical
get-remove_hop_by_hop_headers resp listed j e parts =
    let read : trimmed_csv_canonical (Http.get (codes "Connection") resp.header)
        ≡ map canonical_key listed =
      ap trimmed_csv_canonical e ∙ ap (map canonical_key) (trimmed_csv-join listed parts) in
    get-remove_all (hop_fields ++ trimmed_csv_canonical (Http.get (codes "Connection") resp.header))
      resp.header j
    ∙ rw
        (
          contains-append hop_fields
              (trimmed_csv_canonical (Http.get (codes "Connection") resp.header)) j,
          read,
          contains-hop_fields j,
        )
        refl

-- A header has one entry for a key, as a Go map has.
abbrev pub IsMap : Header → Type 0
IsMap [] = Unit {0}
IsMap ((k, vs) ∷ h) = (Dict.get k h ≡ none) × IsMap h

abbrev pub or_else : Option (List Bytes) → Option (List Bytes) → Option (List Bytes)
or_else none b = b
or_else (some a) b = some a

get-merge_fields :
    (skipped : List Bytes) (src target : Header) (j : Bytes)
    → IsMap src
    → Dict.get j (merge_fields skipped src target) ≡ (
        if contains skipped j
        then Dict.get j target
        else or_else (Dict.get j src) (Dict.get j target))
unfolding merge_fields Dict.get
get-merge_fields skipped [] target j m = ground arith
get-merge_fields skipped ((k, vs) ∷ src) target j (fresh, m) = ground (
  arith,
  get-merge_fields skipped src target j m,
  get-merge_fields skipped src (Dict.put k vs target) j m,
  get-put k j vs target,
  str_eq_iff k j,
  fresh,
)

-- A confirmation gives the stored response every field of its own but Content-Length and the
-- hop-by-hop fields; all other fields of the stored response stay.
pub get-merge_response_headers :
    (target : Response) (src : Header) (j : Bytes)
    → IsMap src
    → Dict.get j (merge_response_headers target src).header ≡ (
        if contains (codes "Content-Length" ∷ hop_by_hop_headers src) j
        then Dict.get j target.header
        else or_else (Dict.get j src) (Dict.get j target.header))
unfolding merge_response_headers
get-merge_response_headers target src j m =
    get-merge_fields (codes "Content-Length" ∷ hop_by_hop_headers src) src target.header j m
