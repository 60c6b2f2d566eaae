-- ===== src/Tests/Around.antt =====
-- The theorems around the transport, on URLs, drivers, options and encoding, at concrete arguments.
use httpcache.Base.{
  Bool, true, ◌≢◌, ℕ, zero, suc, ap, All, length, ◌==◌, ◌≡◌, ◌⊎◌, refl, false, [], ◌∷◌, Option,
  none, some, if◌then◌else◌,
}
use httpcache.Base.Int.{pos, negsuc}
use httpcache.Bytes.{Bytes, codes, str_eq}
use httpcache.Entry.Encoding.{Wire, IsWord, marshal_binary, parse_response}
use httpcache.Entry.RoundTrip.{IsWire, parse_response-marshal_binary}
use httpcache.ExpApi.{nothing, error_text, retrieve, destroy, conn_handler, retrieve-destroy}
use httpcache.Memcache
use httpcache.Memcache.{conn-IsConn}
use httpcache.Tests.{store, answer, entry, get_request}
use httpcache.Store.{Got, found, not_exist, failed}
use httpcache.Dict
use httpcache.Text.{is_space}
use httpcache.Time.{Time}

-- Times are kept as so many letters after a sign.
abbrev letters : ℕ → Bytes
letters zero = []
letters (suc n) = b'a' ∷ letters n

abbrev sign_and_letters : Time → Bytes
sign_and_letters (pos n) = b'p' ∷ letters n
sign_and_letters (negsuc n) = b'm' ∷ letters n

abbrev read_letters : Bytes → Option Time
read_letters [] = none
read_letters (c ∷ s) = if c == b'p' then some (pos (length s)) else some (negsuc (length s))

abbrev pub wire : Wire
wire = record {
  dump_response = λ r. some r.body;
  read_response = λ b _. some (record answer { body = b });
  format_nano = sign_and_letters;
  parse_nano = read_letters;
}

length-letters : (n : ℕ) → length (letters n) ≡ n
length-letters zero = refl
length-letters (suc n) = ap suc (length-letters n)

letters_plain : (n : ℕ) → All (λ c. is_space c ≡ false) (letters n)
unfolding is_space
letters_plain zero = tt
letters_plain (suc n) = (refl, letters_plain n)

sign_and_letters-IsWord : (t : Time) → IsWord (sign_and_letters t)
unfolding is_space
sign_and_letters-IsWord (pos n) = record { filled = λ e. cc e; no_space = (refl, letters_plain n) }
sign_and_letters-IsWord (negsuc n) = record {
  filled = λ e. cc e;
  no_space = (refl, letters_plain n);
}

read_letters-sign : (t : Time) → read_letters (sign_and_letters t) ≡ some t
read_letters-sign (pos n) = ap (λ m. some (pos m)) (length-letters n)
read_letters-sign (negsuc n) = ap (λ m. some (negsuc m)) (length-letters n)

pub wire-IsWire : IsWire wire
wire-IsWire = record { format_word = sign_and_letters-IsWord; parse_format = read_letters-sign }

id-IsWord : IsWord entry.id
unfolding is_space
id-IsWord = record { filled = λ e. cc e; no_space = (refl, (refl, (refl, (refl, tt)))) }

parse_response-marshal_binary_example :
    (text : Bytes) × (marshal_binary wire entry ≡ some text)
    × (parse_response wire text get_request ≡ some entry)
parse_response-marshal_binary_example =
    parse_response-marshal_binary wire wire-IsWire entry id-IsWord (codes "hello") answer
      get_request refl refl

abbrev is_failed : Got → Bool
is_failed (found v) = false
is_failed not_exist = false
is_failed failed = true

not_read_fails : Memcache.conn.get (codes "/b") store ≢ failed
unfolding Memcache.get Dict.get str_eq
not_read_fails e = let no : false ≡ true = ap is_failed e in cc

retrieve-destroy_example :
    let (reply, s) = conn_handler (some Memcache.conn) (λ c. destroy c (codes "/b")) store in
    ((((retrieve Memcache.conn (codes "/b") store).status ≡ 200)
        × (reply.status ≡ 204)
        × (reply.body ≡ nothing))
      ⊎ (((retrieve Memcache.conn (codes "/b") store).status ≡ 404)
          × (reply.status ≡ 404)
          × (reply.body ≡ error_text)))
    × ((retrieve Memcache.conn (codes "/b") s).status ≡ 404)
    × ((destroy Memcache.conn (codes "/b") s).0.status ≡ 404)
    × (str_eq (codes "/b") (codes "/a") ≡ false
        → retrieve Memcache.conn (codes "/a") s ≡ retrieve Memcache.conn (codes "/a") store)
retrieve-destroy_example =
    retrieve-destroy Memcache.conn (codes "/b") (codes "/a") store conn-IsConn not_read_fails
