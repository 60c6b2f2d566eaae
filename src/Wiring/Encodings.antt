-- ===== src/Wiring/Encodings.antt =====
-- The encodings of entries and references that newTransport wires, beside each other in one backend.
use mathlib.Core.List.Sublist
use mathlib.Core.List.{Sublist, nil-sublist}
use httpcache.Base.{
  ◌≡◌, refl, ap, ◌∙◌, [], ◌∷◌, ◌++◌, none, some, All, ◌⊎◌, inl, inr, Option-cases, ℕ,
}
use httpcache.Bytes.{Bytes}
use httpcache.Entry.{Stored, ResponseRefs, response_ids}
use httpcache.Entry.Encoding.{Wire, IsWord, Lacks, meta_line, marshal_binary, parse_response}
use httpcache.Entry.RoundTrip.{IsWire, parse_response-marshal_binary, parse_response-none}
use httpcache.Http.{Request, Response}
use httpcache.System.Provenance.{IsCodec, IsAscii}
use httpcache.Text.{cut}
use httpcache.Wiring.{Json, wire_codec}

-- What net/http documents of a dump that is read back: the body is the same, or empty where the
-- reader's method is HEAD.
abbrev pub KeepsBody : Wire → Type 0
KeepsBody wire =
    (r r' : Response) (dumped : Bytes) (reader : Request)
    → wire.dump_response r ≡ some dumped
    → wire.read_response dumped reader ≡ some r'
    → (r'.body ≡ r.body) ⊎ (r'.body ≡ [])

-- What encoding/json documents: identifiers in ASCII are kept (a byte that is no UTF-8 is replaced), the text is compact, so on one line, and what
-- is no JSON array is not read, such as the text of an entry.
pub record IsJson (wire : Wire) (json : Json) : Type 0 where
  pub ids_kept :
      (refs refs' : ResponseRefs) (bytes : Bytes)
      → All IsAscii (response_ids refs)
      → json.marshal_refs refs ≡ some bytes
      → json.unmarshal_refs bytes ≡ some refs'
      → response_ids refs' ≡ response_ids refs
  pub one_line :
      (refs : ResponseRefs) (bytes : Bytes)
      → json.marshal_refs refs ≡ some bytes
      → Lacks b'\n' bytes
  pub array_only :
      (e : Stored) (bytes : Bytes)
      → marshal_binary wire e ≡ some bytes
      → json.unmarshal_refs bytes ≡ none

cut-Lacks : (sep : ℕ) (s : Bytes) → Lacks sep s → cut sep s ≡ none
unfolding cut
cut-Lacks sep [] h = refl
cut-Lacks sep (c ∷ s) (h, hs) = rw (h, cut-Lacks sep s hs) refl

part_of : (r r' : Response) → (r'.body ≡ r.body) ⊎ (r'.body ≡ []) → Sublist r'.body r.body
part_of r r' (inl same) = rw same (Sublist.refl r.body)
part_of r r' (inr empty) = rw empty (nil-sublist r.body)

module _ (wire : Wire) (json : Json) (laws : IsWire wire) (body : KeepsBody wire)
    (arrays : IsJson wire json) where
  entry_body :
      (e e' : Stored) (bytes : Bytes) (reader : Request)
      → IsWord e.id
      → marshal_binary wire e ≡ some bytes
      → parse_response wire bytes reader ≡ some e'
      → Sublist e'.response.body e.response.body
  unfolding marshal_binary
  entry_body e e' bytes reader word m p = elim (Option-cases (wire.dump_response e.response)) [
    | inl none_made ↦ let no : none ≡ some bytes = rw none_made at m in cc
    | inr (dumped, d) ↦
        let text : some (meta_line wire e ++ b'\n' ∷ dumped) ≡ some bytes = rw d at m in
        let same : meta_line wire e ++ b'\n' ∷ dumped ≡ bytes = cc in
        let parsed : parse_response wire (meta_line wire e ++ b'\n' ∷ dumped) reader ≡ some e' =
          ap (λ b. parse_response wire b reader) same ∙ p in
        elim (Option-cases (wire.read_response dumped reader)) [
          | inl unread ↦ let no = parse_response-none wire laws e word dumped reader unread in cc
          | inr (r, read) ↦
              let (_, m', p') =
                parse_response-marshal_binary wire laws e word dumped r reader d read in
              let whole : e' ≡ record e { response = r } = cc in
              rw whole (part_of e.response r (body e.response r dumped reader d read))
        ]
  ]

  -- The encodings that a transport uses are told apart, as IsCodec says.
  pub wire_codec-IsCodec : IsCodec (wire_codec wire json)
  unfolding parse_response
  wire_codec-IsCodec = record {
    body_kept = entry_body;
    ids_kept = arrays.ids_kept;
    refs_no_entry =
        λ refs bytes reader m. rw (cut-Lacks b'\n' bytes (arrays.one_line refs bytes m)) refl;
    entry_no_refs = arrays.array_only;
  }
