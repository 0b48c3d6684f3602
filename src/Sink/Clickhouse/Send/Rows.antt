-- ===== src/Sink/Clickhouse/Send/Rows.antt =====
-- clickhouse.go: the three loops of `Send` are one loop over the rows of the batch.
use spangen.Base.{◌≡◌, refl, sym, ap, ◌∙◌, List, [], ◌∷◌, ◌++◌, map, Option, none, some, Bool, Text}
use spangen.Model.Spans.{Span, ScopeSpans, ResourceSpans}
use spangen.Sink.Clickhouse.Rows.{Codec, Cell, Context, attr_map, append_span}
use spangen.Sink.Clickhouse.Send.{
  Client, State, append_one, go_on, span_loop, context_of, scope_loop, resource_loop,
}

module _ (c : Codec) where
  -- The rows of a batch, resource by resource and scope by scope.
  unfoldable pub scope_rows : Bool → List (Text × Text) → List ScopeSpans → List (List Cell)
  scope_rows json res_attrs [] = []
  scope_rows json res_attrs (scope ∷ scopes) =
      map (append_span c json (context_of c res_attrs scope)) scope.spans
      ++ scope_rows json res_attrs scopes

  unfoldable pub rows_of : Bool → List ResourceSpans → List (List Cell)
  unfolding scope_rows
  rows_of json [] = []
  rows_of json (r ∷ rs) = scope_rows json (attr_map c r.attributes) r.scopes ++ rows_of json rs

module _ (c : Codec) (cl : Client) where
  open cl use {Err, Conn}

  -- The rows, up to the first error.
  unfoldable pub append_rows : List (List Cell) → State c cl → Option Err × State c cl
  append_rows [] s = (none, s)
  append_rows (row ∷ rows) s = go_on c cl (append_one c cl row s) (append_rows rows)

  go_on-go_on :
      (m : Option Err × State c cl) (f g : State c cl → Option Err × State c cl)
      → go_on c cl (go_on c cl m f) g ≡ go_on c cl m (λ s. go_on c cl (f s) g)
  go_on-go_on (none, s) f g = refl
  go_on-go_on (some e, s) f g = refl

  go_on_cong :
      (m : Option Err × State c cl) (f g : State c cl → Option Err × State c cl)
      → ((s : State c cl) → f s ≡ g s)
      → go_on c cl m f ≡ go_on c cl m g
  go_on_cong (none, s) f g h = h s
  go_on_cong (some e, s) f g h = refl

  append_rows-append :
      (xs ys : List (List Cell)) (s : State c cl)
      → append_rows (xs ++ ys) s ≡ go_on c cl (append_rows xs s) (append_rows ys)
  unfolding append_rows
  append_rows-append [] ys s = refl
  append_rows-append (x ∷ xs) ys s =
      go_on_cong (append_one c cl x s) _ _ (append_rows-append xs ys)
      ∙ sym (go_on-go_on (append_one c cl x s) (append_rows xs) (append_rows ys))

  -- A loop in front of the rows that follow it.
  in_front :
      (xs ys : List (List Cell)) (m : Option Err × State c cl)
      (k : State c cl → Option Err × State c cl) (s : State c cl)
      → m ≡ append_rows xs s
      → ((t : State c cl) → k t ≡ append_rows ys t)
      → go_on c cl m k ≡ append_rows (xs ++ ys) s
  in_front xs ys m k s e f =
      ap (λ n. go_on c cl n k) e
      ∙ go_on_cong (append_rows xs s) k (append_rows ys) f
      ∙ sym (append_rows-append xs ys s)

  span_loop-flat :
      (json : Bool) (x : Context) (sps : List Span) (s : State c cl)
      → span_loop c cl json x sps s ≡ append_rows (map (append_span c json x) sps) s
  unfolding span_loop append_rows
  span_loop-flat json x [] s = refl
  span_loop-flat json x (sp ∷ sps) s =
      go_on_cong (append_one c cl (append_span c json x sp) s) _ _ (span_loop-flat json x sps)

  scope_loop-flat :
      (json : Bool) (res_attrs : List (Text × Text)) (scopes : List ScopeSpans) (s : State c cl)
      → scope_loop c cl json res_attrs scopes s ≡ append_rows (scope_rows c json res_attrs scopes) s
  unfolding scope_loop append_rows scope_rows
  scope_loop-flat json res_attrs [] s = refl
  scope_loop-flat json res_attrs (scope ∷ scopes) s =
      in_front _ _ _ _ s (span_loop-flat json (context_of c res_attrs scope) scope.spans s)
        (scope_loop-flat json res_attrs scopes)

  pub resource_loop-flat :
      (json : Bool) (rs : List ResourceSpans) (s : State c cl)
      → resource_loop c cl json rs s ≡ append_rows (rows_of c json rs) s
  unfolding resource_loop append_rows rows_of
  resource_loop-flat json [] s = refl
  resource_loop-flat json (r ∷ rs) s =
      in_front _ _ _ _ s (scope_loop-flat json (attr_map c r.attributes) r.scopes s)
        (resource_loop-flat json rs)
