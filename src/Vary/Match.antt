-- ===== src/Vary/Match.antt =====
-- The reference that is written for a request, and that request.
use httpcache.Base.{
  ℕ, zero, suc, ◌≡◌, refl, true, false, List, [], ◌∷◌, Option, none, some, arith, All,
}
use httpcache.Bytes.{Bytes, str_eq_iff}
use httpcache.Dict
use httpcache.Dict.{Dict}
use httpcache.Entry.{ResponseRefs}
use httpcache.Http.{Header}
use httpcache.Message.{trimmed_csv_canonical}
use httpcache.Vary.{
  request_value, fields_match, vary_headers_match_one, resolve_fields, normalized_vary_header,
}

module _ (normalize : Bytes → Bytes → Bytes) (h : Header) where
  -- Every field of the map has the value that the request gives.
  abbrev Resolved : Dict Bytes → Type 0
  Resolved d = All (λ e. e.1 ≡ request_value normalize e.0 h) d

  put-Resolved :
      (k : Bytes) (d : Dict Bytes)
      → Resolved d
      → Resolved (Dict.put k (request_value normalize k h) d)
  unfolding Dict.put
  put-Resolved k [] r = (refl, tt)
  put-Resolved k ((j, w) ∷ d) r = ground (arith, str_eq_iff j k, put-Resolved k d r.1)

  resolve_fields-Resolved :
      (names : List Bytes) (d : Dict Bytes)
      → Resolved d
      → Resolved (resolve_fields normalize names h d)
  unfolding resolve_fields
  resolve_fields-Resolved [] d r = r
  resolve_fields-Resolved (name ∷ names) d r =
      resolve_fields-Resolved names _ (put-Resolved name d r)

  fields_match_of_Resolved : (d : Dict Bytes) → Resolved d → fields_match normalize d h ≡ true
  unfolding fields_match
  fields_match_of_Resolved [] r = refl
  fields_match_of_Resolved ((k, v) ∷ d) (e, r) =
      ground (arith, fields_match_of_Resolved d r, str_eq_iff (request_value normalize k h) v)

  -- The fields that are resolved for a request match the request.
  pub fields_match-normalized_vary_header :
      (vary : Bytes) → fields_match normalize (normalized_vary_header normalize vary h) h ≡ true
  unfolding normalized_vary_header
  fields_match-normalized_vary_header vary =
      fields_match_of_Resolved _ (resolve_fields-Resolved (trimmed_csv_canonical vary) [] tt)

  -- The index of the first match is in range, its reference matches, and no earlier one does.
  abbrev pub IsFirst : ResponseRefs → Option ℕ → Type 0
  IsFirst refs none = All (λ r. vary_headers_match_one normalize r h ≡ false) refs
  IsFirst [] (some i) = ⊥
  IsFirst (r ∷ refs) (some zero) = vary_headers_match_one normalize r h ≡ true
  IsFirst (r ∷ refs) (some (suc i)) =
      (vary_headers_match_one normalize r h ≡ false) × IsFirst refs (some i)
