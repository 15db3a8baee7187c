-- ===== src/Hook/Laws.antt =====
-- What an invocation of the hook does to the open spans.
use agentic_footprint.Prelude.{
  String, ◌≡◌, refl, ◌∙◌, Bool, true, false, Option, none, some, List, [], ◌∷◌, str_eq,
  if◌then◌else◌,
}
use agentic_footprint.Prelude.Keyed.{string_key, lookup, remove}
use agentic_footprint.Prelude.Keyed.Lookups.{lookup-alter-other, lookup-remove-other}
use agentic_footprint.Json.{Json}
use agentic_footprint.Events.Validate.{Result, ok, err}
use agentic_footprint.Sanitize.{sanitize_id}
use agentic_footprint.Hook.{
  HookState, World, Call, read_call, remove_span, forget_span, emit, and_next, session_start,
  written, pre_tool_use, close, post_tool_use, sweep_file, sweep, stop, dispatch, handle,
}

-- The directory of a session is as it was.
abbrev Kept : {D : Type 0} → String → HookState D → Result (Unit {0}) String × HookState D → Type 0
Kept k s r = lookup k r.1.open_spans ≡ lookup k s.open_spans

lookup-forget_span :
    {D : Type 0} (session_id id k : String) (s : HookState D)
    → str_eq session_id k ≡ false
    → lookup k (forget_span session_id id s).open_spans ≡ lookup k s.open_spans
unfolding forget_span
lookup-forget_span {D} session_id id k s h = go (lookup session_id s.open_spans)
  where
    go :
        (o : Option (List (String × String)))
        → lookup k
            (elim o as (λ _. HookState D) [
              | none ↦ s
              | some _ ↦ remove_span session_id id s
            ]).open_spans
          ≡ lookup k s.open_spans
    go none = refl
    go (some _) = lookup-alter-other session_id k [] (λ files. remove id files) s.open_spans h

module _ {V F D : Type 0} (j : Json V F) (w : World V F D) (k : String) where
  Kept-and_next :
      (f : HookState D → Result (Unit {0}) String × HookState D) (s : HookState D)
      (r : Result (Unit {0}) String × HookState D)
      → Kept k s r
      → ((t : HookState D) → Kept k t (f t))
      → Kept k s (and_next j w f r)
  Kept-and_next f s (ok _, t) h g = g t ∙ h
  Kept-and_next f s (err e, t) h g = h

  Kept-if :
      (b : Bool) (s : HookState D) (x y : Result (Unit {0}) String × HookState D)
      → Kept k s x
      → Kept k s y
      → Kept k s (if b then x else y)
  Kept-if true s x y h g = h
  Kept-if false s x y h g = g

  module _ (c : Call) (other : str_eq c.session_id k ≡ false) where
    Kept-session_start : (s : HookState D) → Kept k s (session_start j w c s)
    unfolding session_start emit
    Kept-session_start s = Kept-and_next _ s _ refl (λ t. refl)

    Kept-written :
        (id : String) (s : HookState D) (r : Result (Unit {0}) String)
        → Kept k s (written j w c id s r)
    Kept-written id s (err e) = refl
    Kept-written id s (ok _) = lookup-alter-other c.session_id k [] _ s.open_spans other

    Kept-pre_tool_use : (s : HookState D) → Kept k s (pre_tool_use j w c s)
    unfolding pre_tool_use
    Kept-pre_tool_use s =
        Kept-if (str_eq c.tool_use_id_raw "") s (ok tt, s) _ refl
          (Kept-written (sanitize_id c.tool_use_id_raw) s
            (w.write_span c.session_id (sanitize_id c.tool_use_id_raw)))

    Kept-close : (id : String) (s : HookState D) → Kept k s (close j w c id s)
    unfolding close emit
    Kept-close id s = Kept-and_next _ s _ refl (λ t. lookup-forget_span c.session_id id k t other)

    Kept-post_tool_use : (s : HookState D) → Kept k s (post_tool_use j w c s)
    unfolding post_tool_use
    Kept-post_tool_use s =
        Kept-if (str_eq c.tool_use_id_raw "") s (ok tt, s) _ refl
          (Kept-close (sanitize_id c.tool_use_id_raw) s)

    Kept-sweep_file :
        (id : String) (o : Option V) (s : HookState D) → Kept k s (sweep_file j w c id o s)
    unfolding emit
    Kept-sweep_file id none s = refl
    Kept-sweep_file id (some value) s = refl

    Kept-sweep : (files : List (String × String)) (s : HookState D) → Kept k s (sweep j w c files s)
    unfolding sweep
    Kept-sweep [] s = lookup-remove-other c.session_id k s.open_spans other
    Kept-sweep ((id, contents) ∷ files) s =
        Kept-and_next _ s _ (Kept-sweep_file id (w.from_str contents) s) (λ t.
          Kept-sweep files (forget_span c.session_id id t)
          ∙ lookup-forget_span c.session_id id k t other)

    Kept-stop : (s : HookState D) → Kept k s (stop j w c s)
    unfolding stop
    Kept-stop s = go (lookup c.session_id s.open_spans)
      where
        go :
            (o : Option (List (String × String)))
            → Kept k s (elim o [ none ↦ (ok tt, s) | some files ↦ sweep j w c files s ])
        go none = refl
        go (some files) = Kept-sweep files s

    Kept-dispatch : (s : HookState D) → Kept k s (dispatch j w c s)
    unfolding dispatch
    Kept-dispatch s =
        Kept-if (str_eq c.event "SessionStart") s (session_start j w c s) _ (Kept-session_start s) (
          Kept-if (str_eq c.event "PreToolUse") s (pre_tool_use j w c s) _ (Kept-pre_tool_use s) (
            Kept-if (str_eq c.event "PostToolUse") s (post_tool_use j w c s) _
              (Kept-post_tool_use s)
              (Kept-if (str_eq c.event "PostToolUseFailure") s (post_tool_use j w c s) _
                (Kept-post_tool_use s)
                (Kept-if (str_eq c.event "Stop") s (stop j w c s) _ (Kept-stop s) (
                  Kept-if (str_eq c.event "SessionEnd") s (stop j w c s) (ok tt, s) (Kept-stop s)
                    refl)))))

  -- An invocation for one session leaves the open spans of every other one as they are, whatever the
  -- event is and whether or not it fails.
  pub handle_lem :
      (hook : V) (s : HookState D)
      → str_eq (read_call j w hook).session_id k ≡ false
      → lookup k (handle j w (some hook) s).1.open_spans ≡ lookup k s.open_spans
  unfolding handle
  handle_lem hook s other = Kept-dispatch (read_call j w hook) other s
