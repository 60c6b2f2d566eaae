-- ===== src/Text/Trim.antt =====
-- What trimming leaves.
use httpcache.Base.{ℕ, ◌≡◌, refl, Bool, false, [], ◌∷◌, arith}
use httpcache.Bytes.{Bytes}
use httpcache.Text.{trim_left, trim_last, trim_right, trim}

module _ (space : ℕ → Bool) where
  -- The text does not begin with white space.
  abbrev pub HeadPlain : Bytes → Type 0
  HeadPlain [] = Unit {0}
  HeadPlain (c ∷ s) = space c ≡ false

  -- The text does not end with white space.
  abbrev pub LastPlain : Bytes → Type 0
  LastPlain [] = Unit {0}
  LastPlain (c ∷ []) = space c ≡ false
  LastPlain (c ∷ d ∷ s) = LastPlain (d ∷ s)

  pub trim_left-HeadPlain : (s : Bytes) → HeadPlain (trim_left space s)
  unfolding trim_left
  trim_left-HeadPlain [] = tt
  trim_left-HeadPlain (c ∷ s) = ground (arith, trim_left-HeadPlain s)

  trim_last-LastPlain : (c : ℕ) (s : Bytes) → LastPlain s → LastPlain (trim_last space c s)
  unfolding trim_last
  trim_last-LastPlain c [] h = ground arith
  trim_last-LastPlain c (d ∷ s) h = h

  pub trim_right-LastPlain : (s : Bytes) → LastPlain (trim_right space s)
  unfolding trim_right
  trim_right-LastPlain [] = tt
  trim_right-LastPlain (c ∷ s) = trim_last-LastPlain c (trim_right space s) (trim_right-LastPlain s)

  trim_last-HeadPlain : (c : ℕ) (s : Bytes) → space c ≡ false → HeadPlain (trim_last space c s)
  unfolding trim_last
  trim_last-HeadPlain c [] h = rw h h
  trim_last-HeadPlain c (d ∷ s) h = h

  trim_right-HeadPlain : (s : Bytes) → HeadPlain s → HeadPlain (trim_right space s)
  unfolding trim_right
  trim_right-HeadPlain [] h = tt
  trim_right-HeadPlain (c ∷ s) h = trim_last-HeadPlain c _ h

  pub trim-HeadPlain : (s : Bytes) → HeadPlain (trim space s)
  unfolding trim
  trim-HeadPlain s = trim_right-HeadPlain _ (trim_left-HeadPlain s)

  pub trim-LastPlain : (s : Bytes) → LastPlain (trim space s)
  unfolding trim
  trim-LastPlain s = trim_right-LastPlain (trim_left space s)

  trim_left_of_HeadPlain : (s : Bytes) → HeadPlain s → trim_left space s ≡ s
  unfolding trim_left
  trim_left_of_HeadPlain [] h = refl
  trim_left_of_HeadPlain (c ∷ s) h = rw h

  trim_right_of_LastPlain : (s : Bytes) → LastPlain s → trim_right space s ≡ s
  unfolding trim_right
  trim_right_of_LastPlain [] h = refl
  trim_right_of_LastPlain (c ∷ []) h = rw h
  trim_right_of_LastPlain (c ∷ d ∷ s) h = rw (trim_right_of_LastPlain (d ∷ s) h, trim_right)

  pub trim_of_plain : (s : Bytes) → HeadPlain s → LastPlain s → trim space s ≡ s
  unfolding trim
  trim_of_plain s h k = rw (trim_left_of_HeadPlain s h, trim) (trim_right_of_LastPlain s k)
