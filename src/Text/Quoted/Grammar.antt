-- ===== src/Text/Quoted/Grammar.antt =====
-- The quoted-string grammar of RFC 9110 §5.6.4, and the parser.
use httpcache.Base.{
  ℕ, ◌+◌, ◌≡◌, ◌↔◌, refl, sym, ap, ◌∙◌, true, false, [], ◌∷◌, ◌++◌, append_assoc, append-nil, some,
  arith, ◌==◌, if◌then◌else◌, Bool-cases, Option-cases, ==_iff, inl, inr,
}
use httpcache.Bytes.{Bytes}
use httpcache.Text.Quoted.{
  ok, valid_qd_text_byte, unquote, drop_last_quote, between_quotes, parse_quoted_string_e,
}

-- `Spells inner s`: the text `inner` between the quotes stands for `s`.
pub data Spells : Bytes → Bytes → Type 0 where
  empty : Spells [] []
  plain :
      {c : ℕ} {inner s : Bytes}
      → valid_qd_text_byte c ≡ true
      → Spells inner s
      → Spells (c ∷ inner) (c ∷ s)
  pair : {c d : ℕ} {inner s : Bytes} → c ≡ b'\\' → Spells inner s → Spells (c ∷ d ∷ inner) (d ∷ s)

valid-ne-backslash : (c : ℕ) → valid_qd_text_byte c ≡ true → (c == b'\\') ≡ false
unfolding valid_qd_text_byte
valid-ne-backslash c h = ground arith

unquote_plain :
    (i c : ℕ) (inner b : Bytes)
    → valid_qd_text_byte c ≡ true
    → unquote i (c ∷ inner) b ≡ unquote (i + 1) inner (b ++ c ∷ [])
unfolding unquote
unquote_plain i c [] b h = rw (valid-ne-backslash c h, h)
unquote_plain i c (d ∷ inner) b h = rw (valid-ne-backslash c h, h)

unquote_pair :
    (i c d : ℕ) (inner b : Bytes)
    → c ≡ b'\\'
    → unquote i (c ∷ d ∷ inner) b ≡ unquote (i + 2) inner (b ++ d ∷ [])
unfolding unquote
unquote_pair i c d inner b h = rw h

unquote_of_Spells :
    {inner s : Bytes} → Spells inner s → (i : ℕ) (b : Bytes) → unquote i inner b ≡ ok (b ++ s)
unfolding unquote
unquote_of_Spells empty i b = ap ok (sym (append-nil b))
unquote_of_Spells (plain {c} {inner} {s} h w) i b =
    unquote_plain i c inner b h
    ∙ unquote_of_Spells w (i + 1) (b ++ c ∷ [])
    ∙ ap ok (append_assoc b (c ∷ []) s)
unquote_of_Spells (pair {c} {d} {inner} {s} h w) i b =
    unquote_pair i c d inner b h
    ∙ unquote_of_Spells w (i + 2) (b ++ d ∷ [])
    ∙ ap ok (append_assoc b (d ∷ []) s)

Spells_of_unquote :
    (i : ℕ) (inner b r : Bytes)
    → unquote i inner b ≡ ok r
    → (s : Bytes) × Spells inner s × (r ≡ b ++ s)
unfolding unquote
Spells_of_unquote i [] b r e = ([], empty, ground (arith, append-nil b))
Spells_of_unquote i (c ∷ []) b r e = elim (Bool-cases (c == b'\\')) [
  | inl slash ↦ cc (rw slash at e)
  | inr other ↦ elim (Bool-cases (valid_qd_text_byte c)) [
    | inl valid ↦ (c ∷ [], plain valid empty, ground arith)
    | inr bad ↦ absurd (ground arith)
  ]
]
Spells_of_unquote i (c ∷ d ∷ rest) b r e = elim (Bool-cases (c == b'\\')) [
  | inl slash ↦
      let (s, w, q) = Spells_of_unquote (i + 2) rest (b ++ d ∷ []) r (rw slash at e) in
      (d ∷ s, pair ((==_iff _ _).0 slash) w, q ∙ append_assoc b (d ∷ []) s)
  | inr other ↦ elim (Bool-cases (valid_qd_text_byte c)) [
    | inl valid ↦
        let (s, w, q) = Spells_of_unquote (i + 1) (d ∷ rest) (b ++ c ∷ []) r (ground arith) in
        (c ∷ s, plain valid w, q ∙ append_assoc b (c ∷ []) s)
    | inr bad ↦ absurd (ground arith)
  ]
]

drop_last_quote_iff :
    (s inner : Bytes) → (drop_last_quote s ≡ some inner) ↔ (s ≡ inner ++ b'"' ∷ [])
unfolding drop_last_quote
drop_last_quote_iff [] [] = ground arith
drop_last_quote_iff [] (i ∷ inner) = ground arith
drop_last_quote_iff (c ∷ []) [] = ground arith
drop_last_quote_iff (c ∷ []) (i ∷ []) = ground arith
drop_last_quote_iff (c ∷ []) (i ∷ j ∷ inner) = ground arith
drop_last_quote_iff (c ∷ d ∷ s) [] = ground arith
drop_last_quote_iff (c ∷ d ∷ s) (i ∷ inner) = ground (arith, drop_last_quote_iff (d ∷ s) inner)

between_quotes_iff :
    (s inner : Bytes) → (between_quotes s ≡ some inner) ↔ (s ≡ b'"' ∷ (inner ++ b'"' ∷ []))
unfolding between_quotes
between_quotes_iff [] inner = ground arith
between_quotes_iff (c ∷ s) inner = ground (arith, drop_last_quote_iff s inner)

-- The parser accepts exactly the quoted-strings of the grammar, and returns what they stand for.
pub parse_quoted_string_e_iff :
    (q s : Bytes)
    → (parse_quoted_string_e q ≡ ok s)
      ↔ ((inner : Bytes) × (q ≡ b'"' ∷ (inner ++ b'"' ∷ [])) × Spells inner s)
unfolding parse_quoted_string_e
parse_quoted_string_e_iff q s = (to, from)
  where
    to :
        parse_quoted_string_e q ≡ ok s
        → (inner : Bytes) × (q ≡ b'"' ∷ (inner ++ b'"' ∷ [])) × Spells inner s
    to e = elim (Option-cases (between_quotes q)) [
      | inl bad ↦ cc (rw (bad, parse_quoted_string_e) at e)
      | inr (inner, good) ↦
          let (s', w, p) = Spells_of_unquote 0 inner [] s (rw (good, parse_quoted_string_e) at e) in
          (inner, (between_quotes_iff q inner).0 good, rw p w)
    ]

    from :
        (inner : Bytes) × (q ≡ b'"' ∷ (inner ++ b'"' ∷ [])) × Spells inner s
        → parse_quoted_string_e q ≡ ok s
    from (inner, e, w) =
        rw ((between_quotes_iff q inner).1 e, parse_quoted_string_e) (unquote_of_Spells w 0 [])

-- Every byte that cannot stand for itself is escaped.
abbrev pub escape : Bytes → Bytes
escape [] = []
escape (c ∷ s) = if valid_qd_text_byte c then c ∷ escape s else b'\\' ∷ c ∷ escape s

escape-Spells : (s : Bytes) → Spells (escape s) s
escape-Spells [] = empty
escape-Spells (c ∷ s) = elim (Bool-cases (valid_qd_text_byte c)) [
  | inl valid ↦ rw valid (plain valid (escape-Spells s))
  | inr other ↦ rw other (pair refl (escape-Spells s))
]

-- Quoting any text and parsing gives the text back.
pub parse_quoted_string_e-escape :
    (s : Bytes) → parse_quoted_string_e (b'"' ∷ (escape s ++ b'"' ∷ [])) ≡ ok s
parse_quoted_string_e-escape s = (parse_quoted_string_e_iff _ s).1 (escape s, refl, escape-Spells s)
