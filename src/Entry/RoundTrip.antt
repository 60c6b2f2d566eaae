-- ===== src/Entry/RoundTrip.antt =====
-- From an entry to its encoding and back.
use httpcache.Base.{◌≡◌, refl, [], ◌∷◌, ◌++◌, ◌==◌, false, All-append, none, some}
use httpcache.Bytes.{Bytes}
use httpcache.Entry.{Stored}
use httpcache.Entry.Encoding.{
  Wire, split, meta_line, marshal_binary, parse_response, IsWord, Lacks, no_tab, no_newline,
  cut-append, split-Lacks, split-append, LastPlain-append, tab_then_word, HeadPlain-append,
}
use httpcache.Http.{Request, Response}
use httpcache.Text.{trim_space, is_space}
use httpcache.Text.Trim.{trim_of_plain}
use httpcache.Time.{Time}

-- What the formatting of times documents: a text without white space, which is read as the time.
pub record IsWire (wire : Wire) : Type 0 where
  pub format_word : (t : Time) → IsWord (wire.format_nano t)
  pub parse_format : (t : Time) → wire.parse_nano (wire.format_nano t) ≡ some t

module _ (wire : Wire) (laws : IsWire wire) (r : Stored) (word : IsWord r.id) where
  abbrev first_time : Bytes
  first_time = wire.format_nano r.requested_at

  abbrev last_time : Bytes
  last_time = wire.format_nano r.received_at

  trim_space-meta_line : trim_space (meta_line wire r) ≡ meta_line wire r
  unfolding trim_space meta_line
  trim_space-meta_line = trim_of_plain is_space _ (HeadPlain-append r.id _ word) (
      LastPlain-append r.id b'\t' (first_time ++ b'\t' ∷ last_time) (
        LastPlain-append (b'\t' ∷ first_time) b'\t' last_time
          (tab_then_word last_time (laws.format_word r.received_at))))

  split-meta_line : split b'\t' (meta_line wire r) ≡ (r.id, first_time ∷ last_time ∷ [])
  unfolding meta_line
  split-meta_line =
      rw
        (
          split-append b'\t' r.id (first_time ++ b'\t' ∷ last_time) (no_tab r.id word.no_space)
              refl,
          split-append b'\t' first_time last_time
              (no_tab first_time (laws.format_word r.requested_at).no_space) refl,
          split-Lacks b'\t' last_time (no_tab last_time (laws.format_word r.received_at).no_space),
        )
        refl

  no_newline-meta_line : Lacks b'\n' (meta_line wire r)
  unfolding meta_line
  no_newline-meta_line =
      All-append (λ c. (c == b'\n') ≡ false) r.id (b'\t' ∷ (first_time ++ b'\t' ∷ last_time))
        (no_newline r.id word.no_space)
        (
          refl,
          All-append (λ c. (c == b'\n') ≡ false) first_time (b'\t' ∷ last_time)
              (no_newline first_time (laws.format_word r.requested_at).no_space)
              (refl, no_newline last_time (laws.format_word r.received_at).no_space),
        )

  -- An entry whose identifier has no white space is encoded, and decoded to the same identifier and
  -- times, with the response that is read back from its dump.
  pub parse_response-marshal_binary :
      (dumped : Bytes) (read : Response) (req : Request)
      → wire.dump_response r.response ≡ some dumped
      → wire.read_response dumped req ≡ some read
      → (text : Bytes) × (marshal_binary wire r ≡ some text)
        × (parse_response wire text req ≡ some (record r { response = read }))
  unfolding marshal_binary parse_response
  parse_response-marshal_binary dumped read req d e = (
    meta_line wire r ++ b'\n' ∷ dumped,
    rw d refl,
    rw
        (
          cut-append b'\n' (meta_line wire r) dumped no_newline-meta_line refl,
          trim_space-meta_line,
          split-meta_line,
          e,
          laws.parse_format r.requested_at,
          laws.parse_format r.received_at,
        )
        refl,
  )

  -- If the dump is not read back, neither is the entry.
  pub parse_response-none :
      (dumped : Bytes) (req : Request)
      → wire.read_response dumped req ≡ none
      → parse_response wire (meta_line wire r ++ b'\n' ∷ dumped) req ≡ none
  unfolding parse_response
  parse_response-none dumped req e =
      rw
        (
          cut-append b'\n' (meta_line wire r) dumped no_newline-meta_line refl,
          trim_space-meta_line,
          split-meta_line,
          e,
        )
        refl
