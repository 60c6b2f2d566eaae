-- ===== src/FsCache/Namer/Clash.antt =====
-- Which keys have a file's name that lies below another key's.
use httpcache.Base.{
  ℕ, zero, suc, ◌-◌, ◌*◌, ◌≤◌, ◌<◌, ◌≡◌, ◌≢◌, refl, sym, ap, ◌∙◌, false, List, [], ◌∷◌, ◌++◌, leb,
  length, length-append, take, drop, arith, append_assoc, length-drop, take-append, drop-append,
}
use httpcache.Bytes.{Bytes}
use httpcache.FsCache.Namer.{fragments, fragment_size, fragment_file_name, join_path}
use httpcache.Text.{join}
use httpcache.Text.Base64
use httpcache.Text.Base64.RoundTrip.{length-encode, encode-append}

-- More fuel changes nothing.
fragments_more : (f g : ℕ) (s : Bytes) → length s ≤ f → length s ≤ g → fragments f s ≡ fragments g s
unfolding fragments
fragments_more f g [] h k = refl
fragments_more zero g (c ∷ s) h k = absurd (omega arith)
fragments_more (suc f) zero (c ∷ s) h k = absurd (omega arith)
fragments_more (suc f) (suc g) (c ∷ s) h k =
    ap (λ l. take fragment_size (c ∷ s) ∷ l)
      (fragments_more f g (drop fragment_size (c ∷ s)) (omega (arith, length-drop 47 s))
        (omega (arith, length-drop 47 s)))

-- Texts of whole fragments are cut one after the other.
fragments-append :
    (m f g h : ℕ) (s t : Bytes)
    → length s ≡ 48 * m
    → length (s ++ t) ≤ f
    → length s ≤ g
    → length t ≤ h
    → fragments f (s ++ t) ≡ fragments g s ++ fragments h t
unfolding fragments
fragments-append m f g h [] t e a b c = fragments_more f h t a c
fragments-append m zero g h (x ∷ s) t e a b c = absurd (omega arith)
fragments-append m (suc f) zero h (x ∷ s) t e a b c = absurd (omega arith)
fragments-append m (suc f) (suc g) h (x ∷ s) t e a b c =
    let rest = drop fragment_size (x ∷ s) in
    let long : 48 ≤ length (x ∷ s) = omega arith in
    let l : length rest ≡ length s - 47 = length-drop 47 s in
    rw (take-append fragment_size (x ∷ s) t long, drop-append fragment_size (x ∷ s) t long)
      (ap (λ r. take fragment_size (x ∷ s) ∷ r)
        (fragments-append (m - 1) f g h rest t (omega arith)
          (omega (arith, length-append s t, length-append rest t)) (omega arith) c))

fragments-ne_nil : (f : ℕ) (s : Bytes) → 0 < length s → length s ≤ f → fragments f s ≢ []
unfolding fragments
fragments-ne_nil f [] h k = absurd (omega arith)
fragments-ne_nil zero (c ∷ s) h k = absurd (omega arith)
fragments-ne_nil (suc f) (c ∷ s) h k = λ e. absurd (omega (arith, ap length e))

join-append :
    (a b : List Bytes) → a ≢ [] → b ≢ [] → join_path (a ++ b) ≡ join_path a ++ b'/' ∷ join_path b
unfolding join
join-append [] b h k = absurd (h refl)
join-append (x ∷ []) [] h k = absurd (k refl)
join-append (x ∷ []) (y ∷ b) h k = refl
join-append (x ∷ z ∷ a) b h k =
    ap (λ r. x ++ b'/' ∷ r) (join-append (z ∷ a) b (λ e. absurd (omega (arith, ap length e))) k)
    ∙ sym (append_assoc x (b'/' ∷ join_path (z ∷ a)) (b'/' ∷ join_path b))

-- A key of whole fragments that is cut, and any longer key that starts with it: the longer key's
-- file lies below the shorter key's name.
pub fragment_file_name-append :
    (m : ℕ) (key more : Bytes)
    → length key ≡ 36 * m
    → 5 < m
    → 0 < length more
    → fragment_file_name (key ++ more)
      ≡ fragment_file_name key
        ++ b'/' ∷ join_path (fragments (length (Base64.encode more)) (Base64.encode more))
unfolding fragment_file_name
fragment_file_name-append m key more e big some_more =
    let a = Base64.encode key in
    let b = Base64.encode more in
    let la = length-encode key in
    let lb = length-encode more in
    let whole : Base64.encode (key ++ more) ≡ a ++ b =
      encode-append (12 * m) key more (omega arith) in
    let long_a : leb (length a) 255 ≡ false = ground arith in
    let long : leb (length (a ++ b)) 255 ≡ false = ground (arith, length-append a b) in
    let n = length (a ++ b) in
    rw (whole, long, long_a)
      (ap join_path (
          fragments-append m n (length a) (length b) a b (omega arith) (omega arith) (omega arith)
            (omega arith))
        ∙ join-append (fragments (length a) a) (fragments (length b) b)
            (fragments-ne_nil (length a) a (omega arith) (omega arith))
            (fragments-ne_nil (length b) b (omega arith) (omega arith)))
