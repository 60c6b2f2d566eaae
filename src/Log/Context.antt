-- ===== src/Log/Context.antt =====
-- context.go, and TraceIDFromContext of internal/log.go. A context is the chain of the values that
-- were set on it, the last one first; a key of another package is a number.
use httpcache.Base.{ℕ, ◌≡◌, refl, List, [], ◌∷◌, Option, none, some}
use httpcache.Bytes.{Bytes}

pub data Key : Type 0 where
  trace_id_key : Key
  foreign : ℕ → Key

-- A value of a context: a string, or a value of another type.
pub data Value : Type 0 where
  text : Bytes → Value
  opaque : ℕ → Value

abbrev pub GoContext : Type 0
GoContext = List (Key × Value)

-- The string that the type assertion finds.
abbrev as_string : Value → Option Bytes
as_string (text s) = some s
as_string (opaque n) = none

-- TraceIDFromContext
unfoldable pub trace_id_from_context : GoContext → Option Bytes
trace_id_from_context [] = none
trace_id_from_context ((trace_id_key, v) ∷ ctx) = as_string v
trace_id_from_context ((foreign k, v) ∷ ctx) = trace_id_from_context ctx

-- ContextWithTraceID
unfoldable pub context_with_trace_id : Bytes → GoContext → GoContext
context_with_trace_id trace_id ctx = (trace_id_key, text trace_id) ∷ ctx

-- Values that other packages set on top of a trace identifier do not hide it.
abbrev foreign_values : List (ℕ × Value) → GoContext → GoContext
foreign_values [] ctx = ctx
foreign_values ((k, v) ∷ kvs) ctx = (foreign k, v) ∷ foreign_values kvs ctx

trace_id_from_context_lem :
    (kvs : List (ℕ × Value)) (trace_id : Bytes) (ctx : GoContext)
    → trace_id_from_context (foreign_values kvs (context_with_trace_id trace_id ctx))
      ≡ some trace_id
unfolding trace_id_from_context context_with_trace_id
trace_id_from_context_lem [] trace_id ctx = refl
trace_id_from_context_lem ((k, v) ∷ kvs) trace_id ctx = trace_id_from_context_lem kvs trace_id ctx
