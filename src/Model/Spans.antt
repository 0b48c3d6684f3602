-- ===== src/Model/Spans.antt =====
-- What a ptrace.Traces holds, as the sinks read it, and the interface by which the generator fills one.
-- The containers are those of the pdata library: their store is the parameter `Pdata`.
use spangen.Base.{ℕ, zero, suc, ◌<◌, ◌≡◌, List, [], ◌∷◌, ◌++◌, Bool, Text, length}
use spangen.Base.Int.{ℤ}
use spangen.Model.Catalog.{SpanKind}

pub data Value : Type 0 where
  str : Text → Value
  int : ℤ → Value
  bool : Bool → Value

pub data StatusCode : Type 0 where
  status_unset status_error : StatusCode

pub record Event : Type 0 where
  pub name : Text
  pub timestamp : ℕ
  pub attributes : List (Text × Value)

pub record Link : Type 0 where
  pub trace_id : List ℕ
  pub span_id : List ℕ
  pub trace_state : Text
  pub attributes : List (Text × Value)

-- Identifiers are bytes, timestamps 64-bit nanoseconds.
pub record Span : Type 0 where
  pub trace_id : List ℕ
  pub span_id : List ℕ
  pub parent : List ℕ
  pub trace_state : Text
  pub name : Text
  pub kind : SpanKind
  pub start : ℕ
  pub end : ℕ
  pub attributes : List (Text × Value)
  pub code : StatusCode
  pub message : Text
  pub events : List Event
  pub links : List Link

pub record ScopeSpans : Type 0 where
  pub name : Text
  pub version : Text
  pub attributes : List (Text × Value)
  pub spans : List Span

pub record ResourceSpans : Type 0 where
  pub attributes : List (Text × Value)
  pub scopes : List ScopeSpans

-- The span at the end of the first scope.
unfoldable pub add_to_first : Span → List ScopeSpans → List ScopeSpans
add_to_first sp [] = []
add_to_first sp (scope ∷ scopes) = record scope { spans = scope.spans ++ sp ∷ [] } ∷ scopes

-- The same in the k-th resource.
unfoldable pub add_to : ℕ → Span → List ResourceSpans → List ResourceSpans
unfolding add_to_first
add_to k sp [] = []
add_to zero sp (r ∷ rs) = record r { scopes = add_to_first sp r.scopes } ∷ rs
add_to (suc k) sp (r ∷ rs) = r ∷ add_to k sp rs

-- The store of a ptrace.Traces. `add_span k` is an AppendEmpty, with the setters that fill the span,
-- on the Spans() of the only scope of the k-th resource, which pdata hands out as a reference.
pub record Pdata : Type 1 where
  pub Td : Type 0
  pub new_traces : Td
  pub resource_spans : Td → List ResourceSpans
  pub add_resource : ResourceSpans → Td → Td
  pub add_span : ℕ → Span → Td → Td
  -- "NewTraces creates a new Traces struct."
  pub read-new_traces : resource_spans new_traces ≡ []
  -- "AppendEmpty will append to the end of the slice"
  pub read-add_resource :
      (r : ResourceSpans) (td : Td)
      → resource_spans (add_resource r td) ≡ resource_spans td ++ r ∷ []
  pub read-add_span :
      (k : ℕ) (sp : Span) (td : Td)
      → k < length (resource_spans td)
      → resource_spans (add_span k sp td) ≡ add_to k sp (resource_spans td)
