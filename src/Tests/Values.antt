-- ===== src/Tests/Values.antt =====
-- Header values that are normalised.
use mathlib.Core.List.{Perm}
use httpcache.Base.{ℕ, ◌≡◌, refl, ◌↔◌, [], ◌∷◌, none, some, ltb, ◌==◌, All, if◌then◌else◌}
use httpcache.Bytes.{codes, str_eq}
use httpcache.Text.{is_ascii_space}
use httpcache.Text.Csv.{trimmed_csv}
use httpcache.Text.Csv.Parts.{IsPart}
use httpcache.Vary.Normalize.{normalize_order_insensitive}
use httpcache.Vary.Normalize.Fields.{normalize_header_value}
use httpcache.Vary.Normalize.Quality.{Quality}
use httpcache.Vary.Normalize.Order.{normalize_order_insensitive_iff}

-- Thousandths, of which a few are read.
abbrev pub quality : Quality ℕ
quality = record {
  parse_float = λ s.
      if str_eq s (codes "0.9")
      then some 900
      else if str_eq s (codes "0.8")
      then some 800
      else none;
  clamp = λ q. q;
  one = 1000;
  less = ltb;
  same = λ a b. a == b;
  format = λ q. if q == 900 then codes "0.9" else codes "0.8";
}

-- Parts with the same main value are only dropped where they are neighbours in the order of their
-- qualities.
accept_keeps_both :
    normalize_header_value quality (codes "Accept") (codes "a, b;q=0.9, a;q=0.8")
    ≡ codes "a,b;q=0.9,a;q=0.8"
unfolding normalize_header_value str_eq httpcache.Message.contains
    httpcache.Vary.Normalize.Quality.normalize_q_values httpcache.Vary.Normalize.Quality.compact
    httpcache.Vary.Normalize.Quality.sort_parts httpcache.Vary.Normalize.Quality.read_parts
    httpcache.Vary.Normalize.Quality.read_part httpcache.Vary.Normalize.Quality.insert_part
    httpcache.Vary.Normalize.Quality.read_params httpcache.Text.split
    httpcache.Vary.Normalize.Quality.read_param httpcache.Vary.Normalize.Quality.part_lt
    httpcache.Vary.Normalize.Quality.compact_after httpcache.Text.count
    httpcache.Vary.Normalize.insert httpcache.Vary.Normalize.normalize_encoding_header
    httpcache.Vary.Normalize.Quality.params_lt httpcache.Vary.Normalize.replace_encodings
    httpcache.Vary.Normalize.sort httpcache.Vary.Normalize.Quality.write_part httpcache.Text.join
    trimmed_csv httpcache.Text.cut httpcache.Text.trim_space httpcache.Origin.equal_fold
    httpcache.Origin.to_lower httpcache.Text.has_prefix httpcache.Vary.str_lt
    normalize_order_insensitive
accept_keeps_both = refl

encoding_alias :
    normalize_header_value quality (codes "Accept-Encoding") (codes "x-gzip, br;q=0.9")
    ≡ codes "gzip,br;q=0.9"
unfolding normalize_header_value str_eq httpcache.Message.contains
    httpcache.Vary.Normalize.Quality.normalize_q_values httpcache.Vary.Normalize.Quality.compact
    httpcache.Vary.Normalize.Quality.sort_parts httpcache.Vary.Normalize.Quality.read_parts
    httpcache.Vary.Normalize.Quality.read_part httpcache.Vary.Normalize.Quality.insert_part
    httpcache.Vary.Normalize.Quality.read_params httpcache.Text.split
    httpcache.Vary.Normalize.Quality.read_param httpcache.Vary.Normalize.Quality.part_lt
    httpcache.Vary.Normalize.Quality.compact_after httpcache.Text.count
    httpcache.Vary.Normalize.insert httpcache.Vary.Normalize.normalize_encoding_header
    httpcache.Vary.Normalize.Quality.params_lt httpcache.Vary.Normalize.replace_encodings
    httpcache.Vary.Normalize.sort httpcache.Vary.Normalize.Quality.write_part httpcache.Text.join
    trimmed_csv httpcache.Text.cut httpcache.Text.trim_space httpcache.Origin.equal_fold
    httpcache.Origin.to_lower httpcache.Text.has_prefix httpcache.Vary.str_lt
    normalize_order_insensitive
encoding_alias = refl

csv_a : trimmed_csv (codes "b, a") ≡ codes "b" ∷ codes "a" ∷ []
unfolding trimmed_csv
csv_a = refl

csv_b : trimmed_csv (codes "a,b") ≡ codes "a" ∷ codes "b" ∷ []
unfolding trimmed_csv
csv_b = refl

a-IsPart : IsPart (codes "a")
unfolding is_ascii_space
a-IsPart = record {
  trimmed = record { filled = λ e. cc e; head_plain = refl; last_plain = refl };
  whole = refl;
}

b-IsPart : IsPart (codes "b")
unfolding is_ascii_space
b-IsPart = record {
  trimmed = record { filled = λ e. cc e; head_plain = refl; last_plain = refl };
  whole = refl;
}

parts_of_a : All IsPart (trimmed_csv (codes "b, a"))
parts_of_a = rw csv_a (b-IsPart, (a-IsPart, tt))

parts_of_b : All IsPart (trimmed_csv (codes "a,b"))
parts_of_b = rw csv_b (a-IsPart, (b-IsPart, tt))

normalize_order_insensitive_iff_example :
    (normalize_order_insensitive (codes "b, a") ≡ normalize_order_insensitive (codes "a,b"))
    ↔ Perm (trimmed_csv (codes "b, a")) (trimmed_csv (codes "a,b"))
normalize_order_insensitive_iff_example =
    normalize_order_insensitive_iff (codes "b, a") (codes "a,b") parts_of_a parts_of_b
