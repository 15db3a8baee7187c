-- ===== src/Correlate.antt =====
-- crates/af-core/src/correlate.rs: `action_span` events become spans with parsed bounds.
pub mod Laws
use agentic_footprint.Prelude.{
  ℕ, ◌+◌, String, ◌≡◌, Bool, true, false, ◌&&◌, not, Option, none, some, List, [], ◌∷◌, ◌++◌,
  str_eq, sort_by, if◌then◌else◌, unwrap_or, and_then,
}
use agentic_footprint.Prelude.Int.{ℤ, ltb_ℤ, leb_ℤ, eqb_ℤ, div_trunc, in_i64}
use agentic_footprint.Events.{
  Attribution, Envelope, Payload, ActionSpan, ToolKind, ExecutionLocus, action_span,
}

abbrev pub bootstrap_tool_name : String
bootstrap_tool_name = "__session__"

abbrev pub is_remote : ExecutionLocus → Bool
is_remote ExecutionLocus.remote = true
is_remote _ = false

pub record Span : Type 0 where
  pub span_id : String
  pub tool_name : String
  pub tool_kind : ToolKind
  pub locus : ExecutionLocus
  pub t_start : ℤ
  pub t_end : ℤ
  pub pids : List ℤ
  pub attribution : Option Attribution

unfoldable pub is_attributable : Span → Bool
is_attributable s = ltb_ℤ s.t_start s.t_end && not (is_remote s.locus)

unfoldable pub overlaps : Span → ℤ → ℤ → Bool
overlaps s t0 t1 = ltb_ℤ s.t_start t1 && ltb_ℤ t0 s.t_end

pub record SessionTree : Type 0 where
  pub spans : List Span
  pub root_pids : List ℤ
  pub skipped_events : ℕ

abbrev pub no_tree : SessionTree
no_tree = record { spans = []; root_pids = []; skipped_events = 0 }

-- `sort_unstable`: equal integers are the same integer, so any sort has this result.
unfoldable pub sort_pids : List ℤ → List ℤ
unfolding sort_by
sort_pids = sort_by ltb_ℤ

-- `dedup`: of each run of equal neighbours the first is kept.
unfoldable pub dedup_after : ℤ → List ℤ → List ℤ
dedup_after p [] = []
dedup_after p (q ∷ qs) = if eqb_ℤ p q then dedup_after p qs else q ∷ dedup_after q qs

unfoldable pub dedup : List ℤ → List ℤ
unfolding dedup_after
dedup [] = []
dedup (p ∷ ps) = p ∷ dedup_after p ps

-- `parse_nanos` is the `time` crate's RFC 3339 parser, to Unix nanoseconds.
module _ (parse_nanos : String → Option ℤ) where
  unfoldable pub parse_ts : String → Option ℤ
  parse_ts raw =
      and_then (parse_nanos raw)
        λ nanos. let ms = div_trunc nanos 1_000_000 in if in_i64 ms then some ms else none

  -- One `action_span` of the loop, with its bounds.
  unfoldable pub push_span :
      Option Attribution → ActionSpan → Option ℤ → Option ℤ → SessionTree → SessionTree
  push_span attribution action (some t_start) (some t_end) tree =
      let pids = unwrap_or action.pids [] in
      record tree {
        root_pids =
            if str_eq action.tool_name bootstrap_tool_name
            then tree.root_pids ++ pids
            else tree.root_pids;
        spans =
            tree.spans
            ++ record {
              span_id = action.span_id;
              tool_name = action.tool_name;
              tool_kind = action.tool_kind;
              locus = action.execution_locus;
              t_start = t_start;
              t_end = t_end;
              pids = pids;
              attribution = attribution;
            }
              ∷ [];
      }
  push_span _ _ _ _ tree = record tree { skipped_events = tree.skipped_events + 1 }

  unfoldable pub add_payload :
      {F : Type 0} → Option Attribution → Payload F → SessionTree → SessionTree
  add_payload attribution (action_span action) tree =
      push_span attribution action (parse_ts action.t_start) (parse_ts action.t_end) tree
  add_payload attribution _ tree = tree

  unfoldable pub add_events : {F : Type 0} → SessionTree → List (Envelope F) → SessionTree
  add_events tree [] = tree
  add_events tree (e ∷ es) = add_events (add_payload e.attribution e.payload tree) es

  unfoldable pub correlate : {F : Type 0} → List (Envelope F) → SessionTree
  unfolding dedup
  correlate events =
      let tree = add_events no_tree events in
      record tree { root_pids = dedup (sort_pids tree.root_pids) }
