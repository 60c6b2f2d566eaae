-- ===== src/Text/Csv/Parts.antt =====
-- What TrimmedCSV yields.
use httpcache.Base.{
  ℕ, ◌≡◌, refl, sym, ◌∙◌, append-nil, ap, ◌≢◌, Bool, true, false, not, ◌&&◌, List, [], ◌∷◌, ◌++◌,
  append_assoc, arith, ◌==◌, All, All-append, if◌then◌else◌,
}
use httpcache.Bytes.{Bytes, codes}
use httpcache.Text.{trim_string, is_ascii_space, join}
use httpcache.Text.Trim.{HeadPlain, LastPlain, trim-HeadPlain, trim-LastPlain, trim_of_plain}
use httpcache.Text.Csv.{Scan, emit, csv_step, csv_run, csv_finish, trimmed_csv}

-- A text that is not empty and has no white space at its ends.
pub record IsTrimmed (s : Bytes) : Type 0 where
  pub filled : s ≢ []
  pub head_plain : HeadPlain is_ascii_space s
  pub last_plain : LastPlain is_ascii_space s

emit-IsTrimmed :
    (out : List Bytes) (p : Bytes)
    → HeadPlain is_ascii_space p
    → LastPlain is_ascii_space p
    → All IsTrimmed out
    → All IsTrimmed (emit out p)
emit-IsTrimmed out [] h k a = a
emit-IsTrimmed out (c ∷ p) h k a =
    All-append IsTrimmed out ((c ∷ p) ∷ []) a
      (record { filled = λ e. cc e; head_plain = h; last_plain = k }, tt)

emit-trim-IsTrimmed :
    (out : List Bytes) (p : Bytes) → All IsTrimmed out → All IsTrimmed (emit out (trim_string p))
unfolding trim_string
emit-trim-IsTrimmed out p a =
    emit-IsTrimmed out (trim_string p) (trim-HeadPlain is_ascii_space p)
      (trim-LastPlain is_ascii_space p) a

csv_step-IsTrimmed :
    (s : Scan) (c : ℕ) → All IsTrimmed s.yielded → All IsTrimmed (csv_step s c).yielded
unfolding csv_step
csv_step-IsTrimmed s c a = ground (arith, emit-trim-IsTrimmed s.yielded s.part a)

csv_run-IsTrimmed :
    (s : Scan) (text : Bytes) → All IsTrimmed s.yielded → All IsTrimmed (csv_run s text).yielded
unfolding csv_run
csv_run-IsTrimmed s [] a = a
csv_run-IsTrimmed s (c ∷ rest) a = csv_run-IsTrimmed (csv_step s c) rest (csv_step-IsTrimmed s c a)

-- Every part that is yielded is non-empty and has no white space at its ends, whatever the text.
pub trimmed_csv-IsTrimmed : (text : Bytes) → All IsTrimmed (trimmed_csv text)
unfolding trimmed_csv csv_finish
trimmed_csv-IsTrimmed text =
    let start : Scan = record { part = []; in_quotes = false; escape = false; yielded = [] } in
    let a = csv_run-IsTrimmed start text tt in
    ground (arith, emit-trim-IsTrimmed (csv_run start text).yielded (csv_run start text).part a)

-- The text ends outside quotes and escapes, and holds no comma outside them.
abbrev pub closed : Bool → Bool → Bytes → Bool
closed true q [] = false
closed false q [] = not q
closed true q (c ∷ s) = closed false q s
closed false q (c ∷ s) =
    if c == b'\\'
    then closed true q s
    else if c == b'"'
    then closed false (not q) s
    else if c == b',' && not q
    then false
    else closed false q s

-- A part that can stand in a list: trimmed, and with no comma outside quotes.
pub record IsPart (s : Bytes) : Type 0 where
  pub trimmed : IsTrimmed s
  pub whole : closed false false s ≡ true

csv_run_part :
    (p q : Bytes) (i e : Bool) (out : List Bytes)
    → closed e i p ≡ true
    → csv_run (record { part = q; in_quotes = i; escape = e; yielded = out }) p
      ≡ record { part = q ++ p; in_quotes = false; escape = false; yielded = out }
unfolding csv_run
csv_run_part [] q false false out h =
    ap (λ t. record { part = t; in_quotes = false; escape = false; yielded = out })
      (sym (append-nil q))
csv_run_part [] q i e out h = ground arith
csv_run_part (c ∷ p) q i e out h = ground (
  arith,
  append_assoc q (c ∷ []) p,
  csv_run_part p (q ++ c ∷ []) i false out,
  csv_run_part p (q ++ c ∷ []) i true out,
  csv_run_part p (q ++ c ∷ []) (not i) false out,
)

csv_run-append : (s : Scan) (a b : Bytes) → csv_run s (a ++ b) ≡ csv_run (csv_run s a) b
unfolding csv_run
csv_run-append s [] b = refl
csv_run-append s (c ∷ a) b = csv_run-append (csv_step s c) a b

csv_run_cons :
    (s : Scan) (c : ℕ) (rest : Bytes) → csv_run s (c ∷ rest) ≡ csv_run (csv_step s c) rest
unfolding csv_run
csv_run_cons s c rest = refl

abbrev scan : Bytes → List Bytes → Scan
scan part out = record { part = part; in_quotes = false; escape = false; yielded = out }

emit_filled : (out : List Bytes) (p : Bytes) → p ≢ [] → emit out p ≡ out ++ p ∷ []
emit_filled out [] h = absurd (h refl)
emit_filled out (c ∷ p) h = refl

csv_finish_part :
    (p : Bytes) (out : List Bytes) → IsTrimmed p → csv_finish (scan p out) ≡ out ++ p ∷ []
unfolding csv_finish trim_string
csv_finish_part [] out t = absurd (t.filled refl)
csv_finish_part (c ∷ p) out t =
    ground (arith, trim_of_plain is_ascii_space (c ∷ p) t.head_plain t.last_plain)

csv_step_comma :
    (p : Bytes) (out : List Bytes)
    → IsTrimmed p
    → csv_step (scan p out) b',' ≡ scan [] (out ++ p ∷ [])
unfolding csv_step trim_string
csv_step_comma p out t =
    rw (trim_of_plain is_ascii_space p t.head_plain t.last_plain)
      (ap (scan []) (emit_filled out p t.filled))

csv_run-join :
    (p : Bytes) (ps : List Bytes) (out : List Bytes)
    → IsPart p
    → All IsPart ps
    → csv_finish (csv_run (scan [] out) (join (codes ",") (p ∷ ps))) ≡ out ++ p ∷ ps
unfolding join
csv_run-join p [] out h hs =
    ap csv_finish (csv_run_part p [] false false out h.whole) ∙ csv_finish_part p out h.trimmed
csv_run-join p (r ∷ ps) out h (k, ks) =
    let rest = join (codes ",") (r ∷ ps) in
    ap csv_finish (csv_run-append (scan [] out) p (b',' ∷ rest))
    ∙ ap (λ s. csv_finish (csv_run s (b',' ∷ rest))) (csv_run_part p [] false false out h.whole)
    ∙ ap csv_finish (csv_run_cons (scan p out) b',' rest)
    ∙ ap (λ s. csv_finish (csv_run s rest)) (csv_step_comma p out h.trimmed)
    ∙ csv_run-join r ps (out ++ p ∷ []) k ks
    ∙ append_assoc out (p ∷ []) (r ∷ ps)

-- Joining parts by commas and splitting gives the same parts, if each is a part.
pub trimmed_csv-join : (ps : List Bytes) → All IsPart ps → trimmed_csv (join (codes ",") ps) ≡ ps
unfolding trimmed_csv join
trimmed_csv-join [] h = unfold csv_run csv_finish in refl
trimmed_csv-join (p ∷ ps) (h, hs) = csv_run-join p ps [] h hs
