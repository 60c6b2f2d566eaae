-- ===== src/Vary/Normalize/Quality.antt =====
-- internal/normalization.go: values whose elements have qualities.
use httpcache.Base.{
  Bool, true, false, not, ◌&&◌, ◌||◌, List, [], ◌∷◌, ◌++◌, map, Option, none, some, ◌==◌, ltb,
  length, take, drop, if◌then◌else◌,
}
use httpcache.Bytes.{Bytes, codes, str_eq}
use httpcache.Origin.{equal_fold}
use httpcache.Text.{cut, join, trim_space}
use httpcache.Text.Csv.{trimmed_csv}
use httpcache.Text.{split, count}
use httpcache.Vary.Normalize.{sort}
use httpcache.Vary.{str_lt}

-- Floating-point numbers: strconv.ParseFloat, `min(max(q, 0.001), 1)`, 1.0 itself, whether
-- cmp.Compare is negative, `==`, and formatQValue.
pub record Quality (Q : Type 0) : Type 0 where
  pub parse_float : Bytes → Option Q
  pub clamp : Q → Q
  pub one : Q
  pub less : Q → Q → Bool
  pub same : Q → Q → Bool
  pub format : Q → Bytes

-- qualityValue
pub record QualityValue (Q : Type 0) : Type 0 where
  pub main : Bytes
  pub q : Q
  pub params : List Bytes

-- slices.Compare on lists of strings, as `less`
unfoldable pub params_lt : List Bytes → List Bytes → Bool
params_lt ps [] = false
params_lt [] (r ∷ rs) = true
params_lt (p ∷ ps) (r ∷ rs) = if str_eq p r then params_lt ps rs else str_lt p r

abbrev and_then : {A B : Type 0} → Option A → (A → Option B) → Option B
and_then none k = none
and_then (some a) k = k a

module _ {Q : Type 0} (f : Quality Q) where
  abbrev q_or : Q → Option Q → Q
  q_or q none = q
  q_or q (some r) = f.clamp r

  -- A parameter: a `q` of zero drops the part; another `q` that is a number is kept, clamped; any
  -- other parameter that is not empty is kept as it is.
  unfoldable pub read_param : Bytes → QualityValue Q → Option (QualityValue Q)
  read_param raw part =
      let param = trim_space raw in
      let value = drop 2 param in
      if ltb 2 (length param) && equal_fold (take 2 param) (codes "q=")
      then (if str_eq value (codes "0") || str_eq value (codes "0.0")
          then none
          else some (record part { q = q_or part.q (f.parse_float value) }))
      else if ltb 0 (length param)
      then some (record part { params = part.params ++ param ∷ [] })
      else some part

  unfoldable pub read_params : List Bytes → QualityValue Q → Option (QualityValue Q)
  read_params [] part = some part
  read_params (p ∷ ps) part = and_then (read_param p part) (λ part'. read_params ps part')

  abbrev sorted_params : Option (QualityValue Q) → Option (QualityValue Q)
  sorted_params none = none
  sorted_params (some part) = some (record part { params = sort part.params })

  abbrev read_cut : Bytes → Option (Bytes × Bytes) → Option (QualityValue Q)
  read_cut part none = some (record { main = part; q = f.one; params = [] })
  read_cut part (some (main, raw)) =
      sorted_params (read_params (split b';' raw) (record { main = main; q = f.one; params = [] }))

  -- The body of the first loop; `none` is `continue outer`.
  unfoldable pub read_part : Bytes → Option (QualityValue Q)
  read_part part = read_cut part (cut b';' part)

  abbrev kept_part : Option (QualityValue Q) → List (QualityValue Q) → List (QualityValue Q)
  kept_part none rest = rest
  kept_part (some p) rest = p ∷ rest

  unfoldable pub read_parts : List Bytes → List (QualityValue Q)
  read_parts [] = []
  read_parts (p ∷ ps) = kept_part (read_part p) (read_parts ps)

  -- The order of the parts.
  unfoldable pub part_lt : QualityValue Q → QualityValue Q → Bool
  part_lt a b =
      let stars_a = count b'*' a.main in
      let stars_b = count b'*' b.main in
      if f.less b.q a.q
      then true
      else if f.less a.q b.q
      then false
      else if not (stars_a == stars_b)
      then ltb stars_a stars_b
      else if not (str_eq a.main b.main)
      then str_lt a.main b.main
      else if not (length a.params == length b.params)
      then ltb (length b.params) (length a.params)
      else params_lt a.params b.params

  unfoldable pub insert_part : QualityValue Q → List (QualityValue Q) → List (QualityValue Q)
  insert_part p [] = p ∷ []
  insert_part p (r ∷ rs) =
      let rest = insert_part p rs in if part_lt r p then r ∷ rest else p ∷ r ∷ rs

  unfoldable pub sort_parts : List (QualityValue Q) → List (QualityValue Q)
  sort_parts [] = []
  sort_parts (p ∷ ps) = insert_part p (sort_parts ps)

  -- slices.CompactFunc: of neighbours with the same main value the first is kept.
  unfoldable pub compact_after : Bytes → List (QualityValue Q) → List (QualityValue Q)
  compact_after main [] = []
  compact_after main (p ∷ ps) =
      let rest = compact_after p.main ps in if str_eq main p.main then rest else p ∷ rest

  unfoldable pub compact : List (QualityValue Q) → List (QualityValue Q)
  compact [] = []
  compact (p ∷ ps) = p ∷ compact_after p.main ps

  abbrev write_params : List Bytes → Bytes
  write_params [] = []
  write_params (p ∷ ps) = b';' ∷ p ++ write_params ps

  unfoldable pub write_part : QualityValue Q → Bytes
  write_part p =
      p.main
      ++ (write_params p.params ++ (if f.same p.q f.one then [] else codes ";q=" ++ f.format p.q))

  -- normalizeOrderInsensitiveWithQValues
  unfoldable pub normalize_q_values : Bytes → Bytes
  normalize_q_values value =
      join (codes ",") (map write_part (compact (sort_parts (read_parts (trimmed_csv value)))))
