-- ===== src/Entry/Encoding.antt =====
-- MarshalBinary, WriteTo and ParseResponse of internal/entry.go.
use httpcache.Base.{
  ℕ, ◌≡◌, ◌≢◌, refl, true, false, List, [], ◌∷◌, ◌++◌, Option, none, some, arith, ◌==◌,
  if◌then◌else◌, All,
}
use httpcache.Bytes.{Bytes}
use httpcache.Entry.{Stored}
use httpcache.Http.{Request, Response}
use httpcache.Text.{trim_space, is_space, cut}
use httpcache.Text.Trim.{HeadPlain, LastPlain}
use httpcache.Time.{Time, or_zero}

-- httputil.DumpResponse and http.ReadResponse, and the times of RFC 3339 with nanoseconds.
pub record Wire : Type 0 where
  pub dump_response : Response → Option Bytes
  pub read_response : Bytes → Request → Option Response
  pub format_nano : Time → Bytes
  pub parse_nano : Bytes → Option Time

-- bytes.Split
unfoldable pub split : ℕ → Bytes → Bytes × List Bytes
split sep [] = ([], [])
split sep (c ∷ s) =
    let (part, parts) = split sep s in if c == sep then ([], part ∷ parts) else (c ∷ part, parts)

module _ (wire : Wire) where
  -- Response.WriteTo, without the newline
  unfoldable pub meta_line : Stored → Bytes
  meta_line r =
      r.id ++ b'\t' ∷ (wire.format_nano r.requested_at ++ b'\t' ∷ wire.format_nano r.received_at)

  abbrev after_meta : Stored → Option Bytes → Option Bytes
  after_meta r none = none
  after_meta r (some dumped) = some (meta_line r ++ b'\n' ∷ dumped)

  -- MarshalBinary
  unfoldable pub marshal_binary : Stored → Option Bytes
  marshal_binary r = after_meta r (wire.dump_response r.response)

  abbrev with_data : Bytes → Bytes → Bytes → Option Response → Option Stored
  with_data id requested received none = none
  with_data id requested received (some resp) = some (record {
    id = id;
    response = resp;
    requested_at = or_zero (wire.parse_nano requested);
    received_at = or_zero (wire.parse_nano received);
  })

  abbrev from_parts : Bytes × List Bytes → Bytes → Request → Option Stored
  from_parts (id, requested ∷ received ∷ []) rest req =
      with_data id requested received (wire.read_response rest req)
  from_parts (id, []) rest req = none
  from_parts (id, requested ∷ []) rest req = none
  from_parts (id, requested ∷ received ∷ more ∷ parts) rest req = none

  abbrev from_line : Option (Bytes × Bytes) → Request → Option Stored
  from_line none req = none
  from_line (some (line, rest)) req = from_parts (split b'\t' (trim_space line)) rest req

  -- ParseResponse
  unfoldable pub parse_response : Bytes → Request → Option Stored
  parse_response text req = from_line (cut b'\n' text) req

-- A text with no white space in it, and not empty.
pub record IsWord (s : Bytes) : Type 0 where
  pub filled : s ≢ []
  pub no_space : All (λ c. is_space c ≡ false) s

-- No byte of the text is `sep`.
abbrev pub Lacks : ℕ → Bytes → Type 0
Lacks sep s = All (λ c. (c == sep) ≡ false) s

pub no_tab : (s : Bytes) → All (λ c. is_space c ≡ false) s → Lacks b'\t' s
unfolding is_space
no_tab [] h = tt
no_tab (c ∷ s) (h, hs) = (ground (arith, h), no_tab s hs)

pub no_newline : (s : Bytes) → All (λ c. is_space c ≡ false) s → Lacks b'\n' s
unfolding is_space
no_newline [] h = tt
no_newline (c ∷ s) (h, hs) = (ground (arith, h), no_newline s hs)

pub cut-append :
    (sep : ℕ) (s t : Bytes)
    → Lacks sep s
    → (sep == sep) ≡ true
    → cut sep (s ++ sep ∷ t) ≡ some (s, t)
unfolding cut
cut-append sep [] t h e = rw e refl
cut-append sep (c ∷ s) t (h, hs) e = rw (h, cut-append sep s t hs e) refl

pub split-Lacks : (sep : ℕ) (s : Bytes) → Lacks sep s → split sep s ≡ (s, [])
unfolding split
split-Lacks sep [] h = refl
split-Lacks sep (c ∷ s) (h, hs) = rw (split-Lacks sep s hs, h) refl

pub split-append :
    (sep : ℕ) (s t : Bytes)
    → Lacks sep s
    → (sep == sep) ≡ true
    → split sep (s ++ sep ∷ t) ≡ (s, (split sep t).0 ∷ (split sep t).1)
unfolding split
split-append sep [] t h e = rw e refl
split-append sep (c ∷ s) t (h, hs) e = rw (split-append sep s t hs e, h) refl

LastPlain-of_All : (s : Bytes) → All (λ c. is_space c ≡ false) s → LastPlain is_space s
LastPlain-of_All [] h = tt
LastPlain-of_All (c ∷ []) (h, hs) = h
LastPlain-of_All (c ∷ d ∷ s) (h, hs) = LastPlain-of_All (d ∷ s) hs

pub LastPlain-append :
    (s : Bytes) (c : ℕ) (t : Bytes) → LastPlain is_space (c ∷ t) → LastPlain is_space (s ++ c ∷ t)
LastPlain-append [] c t h = h
LastPlain-append (a ∷ []) c t h = h
LastPlain-append (a ∷ b ∷ s) c t h = LastPlain-append (b ∷ s) c t h

pub tab_then_word : (s : Bytes) → IsWord s → LastPlain is_space (b'\t' ∷ s)
tab_then_word [] w = absurd (w.filled refl)
tab_then_word (c ∷ s) w = LastPlain-of_All (c ∷ s) w.no_space

pub HeadPlain-append : (s t : Bytes) → IsWord s → HeadPlain is_space (s ++ t)
HeadPlain-append [] t w = absurd (w.filled refl)
HeadPlain-append (c ∷ s) t w = w.no_space.0
