-- ===== src/Tests/Texts.antt =====
-- The theorems on texts at concrete arguments.
use httpcache.Base.{◌≡◌, ◌↔◌, refl, [], ◌∷◌, ◌++◌, none, some, Option, false}
use httpcache.Bytes.{Bytes, codes}
use httpcache.Http.{Url}
use httpcache.Origin.{same_origin}
use httpcache.Text.{join, is_ascii_space}
use httpcache.Text.Csv.{trimmed_csv}
use httpcache.Text.Csv.Parts.{IsPart, trimmed_csv-join}
use httpcache.Text.Quoted.{ok, parse_quoted_string_e}
use httpcache.Text.Quoted.Grammar.{Spells, parse_quoted_string_e_iff}
use httpcache.UrlKey.{normalize, normalized_key}
use httpcache.UrlKey.Equivalent.{RemovesDots, normalize-same_origin}
use httpcache.UrlKey.Brackets.{at_host, normalized_key-brackets}

IsTrimmed_letters : IsPart (codes "no-cache")
unfolding is_ascii_space
IsTrimmed_letters = record {
  trimmed = record { filled = λ e. cc e; head_plain = refl; last_plain = refl };
  whole = refl;
}

trimmed_csv-join_example :
    trimmed_csv (join (codes ",") (codes "no-cache" ∷ codes "no-cache" ∷ []))
    ≡ codes "no-cache" ∷ codes "no-cache" ∷ []
trimmed_csv-join_example =
    trimmed_csv-join (codes "no-cache" ∷ codes "no-cache" ∷ [])
      (IsTrimmed_letters, (IsTrimmed_letters, tt))

parse_quoted_string_e_iff_example :
    (parse_quoted_string_e (codes "\"a\"") ≡ ok (codes "a"))
    ↔ ((inner : Bytes) × (codes "\"a\"" ≡ b'"' ∷ (inner ++ b'"' ∷ [])) × Spells inner (codes "a"))
parse_quoted_string_e_iff_example = parse_quoted_string_e_iff (codes "\"a\"") (codes "a")

-- The host is put in by the theorem.
abbrev some_page : Url
some_page = record {
  scheme = codes "http";
  opaque = [];
  host = [];
  path = codes "/";
  raw_query = [];
}

abbrev key : Url → Bytes
key u = normalized_key (λ _. none) (λ _ v. v) (λ v. v.path) u

normalized_key-brackets_example :
    (key (at_host some_page (codes "[1::2]:3")) ≡ key (at_host some_page (codes "[1::2:3]")))
    × (same_origin (at_host some_page (codes "[1::2]:3")) (at_host some_page (codes "[1::2:3]"))
        ≡ false)
unfolding httpcache.Origin.all_digits httpcache.Bytes.str_eq httpcache.Origin.default_port
normalized_key-brackets_example =
    normalized_key-brackets (λ _. none) (λ _ v. v) (λ v. v.path) some_page (codes "1::2") b'3' []
      refl refl refl

-- The keyer with a net/url that parses everything and leaves paths as they are.
abbrev keyer : Url → Option Bytes
keyer u = normalize (λ _. some some_page) (λ _ v. v) (λ v. v.path) u

abbrev loud : Url
loud = at_host some_page (codes "EXAMPLE.com:80")

abbrev quiet : Url
quiet = at_host some_page (codes "example.com")

leaves_paths : RemovesDots (λ _ v. v) (λ v. v.path)
leaves_paths = record {
  clean = λ p. p;
  keeps = λ _ _ _ _ _. record {
    kept_scheme = refl;
    kept_host = refl;
    kept_query = refl;
    cleaned = refl;
  };
}

normalize-same_origin_example : keyer loud ≡ keyer quiet
unfolding same_origin httpcache.Bytes.str_eq
normalize-same_origin_example =
    normalize-same_origin (λ _. some some_page) (λ _ v. v) (λ v. v.path) leaves_paths b'h'
      (codes "ttp") loud quiet some_page some_page refl refl refl refl refl refl refl refl refl
