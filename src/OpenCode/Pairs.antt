-- ===== src/OpenCode/Pairs.antt =====
-- crates/af-cli/src/cmd/opencode.rs: how many starts the normalizer holds, and what it returns.
use agentic_footprint.Prelude.{
  ℕ, ◌+◌, ◌≤◌, String, ◌≡◌, refl, inl, inr, Bool, true, false, Option, none, some, List, [], length,
  str_eq, if◌then◌else◌, Bool-cases, arith, unwrap_or,
}
use agentic_footprint.Prelude.Int.{ℤ}
use agentic_footprint.Prelude.Keyed.{string_key, lookup, alter, remove}
use agentic_footprint.Prelude.Keyed.Sizes.{length-alter, length-remove}
use agentic_footprint.Json.{Json}
use agentic_footprint.Events.{Envelope}
use agentic_footprint.Events.Validate.{Result, ok, err, ◌>>=◌}
use agentic_footprint.OpenCode.{SourceEvent, NormalizerState, Normalizer}
use agentic_footprint.OpenCode.Normalize.{Library, as_object, required_str}
use agentic_footprint.OpenCode.Settle.{
  Table, single, steps, tools, shells, pending, set_pending, key_name, settle_step, settle_tool,
  settle_shell, remember, remember_id, settle, settle_id, settle_started, step, tool, shell,
  dispatch, check_data, normalize_checked, normalize,
}

abbrev pub total : {V : Type 0} → NormalizerState V → ℕ
total s = length s.steps + (length s.tools + length s.shells)

abbrev pub emitted : {F : Type 0} → Result (List (Envelope F)) String → ℕ
emitted (ok es) = length es
emitted (err e) = 0

-- The number of starts that an event of this type is.
abbrev pub starts : String → ℕ
starts event_type =
    if str_eq event_type "session.next.step.started"
    then 1
    else if str_eq event_type "session.next.tool.called"
    then 1
    else if str_eq event_type "session.next.shell.started"
    then 1
    else 0

-- A result beside the state that it leaves, after a state of `t` pending starts and `n` new ones.
abbrev Balanced :
    {V F : Type 0} → ℕ → ℕ → Result (List (Envelope F)) String × NormalizerState V → Type 0
Balanced n t (r, s) = (emitted r ≤ 1) × (emitted r + total s ≤ t + n)

total-set_pending :
    {V : Type 0} (t : Table) (m : List (String × V)) (s : NormalizerState V)
    → total (set_pending t m s) + length (pending t s) ≡ total s + length m
total-set_pending steps m s = omega arith
total-set_pending tools m s = omega arith
total-set_pending shells m s = omega arith

single_le : {F : Type 0} (r : Result (Envelope F) String) → emitted (single r) ≤ 1
single_le (ok e) = omega arith
single_le (err x) = omega arith

module _ {V F T : Type 0} (j : Json V F) (l : Library T) where
  Balanced-remember :
      (t : Table) (body : V) (s : NormalizerState V) → Balanced 1 (total s) (remember j l t body s)
  unfolding remember
  Balanced-remember t body s = go (required_str j body (key_name t))
    where
      go : (r : Result String String) → Balanced 1 (total s) (remember_id j l t body r s)
      go (err e) = (omega arith, omega arith)
      go (ok id) =
          let m = alter id body (λ _. body) (pending t s) in
          let a = total-set_pending t m s in
          let b = length-alter id body (λ _. body) (pending t s) in
          (omega arith, omega (arith, a, b))

  Balanced-settle :
      (t : Table) (go : String → V → Result (Envelope F) String) (body : V) (s : NormalizerState V)
      → Balanced 0 (total s) (settle j l t go body s)
  unfolding settle
  Balanced-settle t go body s =
      by_id (as_object j body >>= λ value. required_str j value (key_name t))
    where
      by_start :
          (id : String) (o : Option V)
          → lookup id (pending t s) ≡ o
          → Balanced 0 (total s) (settle_started j l t go id o s)
      by_start id none e = (omega arith, omega arith)
      by_start id (some start) e =
          let a = total-set_pending t (remove id (pending t s)) s in
          let b = length-remove id start (pending t s) e in
          let c = single_le (go id start) in (c, omega (arith, a, b, c))

      by_id : (r : Result String String) → Balanced 0 (total s) (settle_id j l t go r s)
      by_id (err e) = (omega arith, omega arith)
      by_id (ok id) = by_start id (lookup id (pending t s)) refl

  Balanced-weaken :
      (n t : ℕ) (r : Result (List (Envelope F)) String × NormalizerState V)
      → Balanced 0 t r
      → Balanced n t r
  Balanced-weaken n t r b = (b.0, omega (arith, b.1))

  Balanced-if :
      (c : Bool) (n t : ℕ) (a b : Result (List (Envelope F)) String × NormalizerState V)
      → Balanced 0 t a
      → Balanced n t b
      → Balanced n t (if c then a else b)
  Balanced-if true n t a b x y = Balanced-weaken n t a x
  Balanced-if false n t a b x y = y

  Balanced-step :
      (event : SourceEvent V) (failed : Bool) (s : NormalizerState V)
      → Balanced 0 (total s) (step j l event failed s)
  unfolding step
  Balanced-step event failed s =
      Balanced-settle steps (λ id start. settle_step j l event event.body id failed start)
        event.body s

  Balanced-tool :
      (pid : Option ℤ) (event : SourceEvent V) (failed : Bool) (s : NormalizerState V)
      → Balanced 0 (total s) (tool j l pid event failed s)
  unfolding tool
  Balanced-tool pid event failed s =
      Balanced-settle tools (λ id start. settle_tool j l pid event event.body id failed start)
        event.body s

  Balanced-shell :
      (pid : Option ℤ) (event : SourceEvent V) (s : NormalizerState V)
      → Balanced 0 (total s) (shell j l pid event s)
  unfolding shell
  Balanced-shell pid event s =
      Balanced-settle shells (λ id start. settle_shell j l pid event event.body id start) event.body
        s

  after_shell :
      (n : ℕ) (pid : Option ℤ) (t : String) (event : SourceEvent V) (s : NormalizerState V)
      → Balanced n
          (total s)
          (if str_eq t "session.next.shell.ended" then shell j l pid event s else (ok [], s))
  after_shell n pid t event s =
      Balanced-if (str_eq t "session.next.shell.ended") n (total s) (shell j l pid event s)
        (ok [], s) (Balanced-shell pid event s) (omega arith, omega arith)

  after_tool :
      (pid : Option ℤ) (t : String) (event : SourceEvent V) (s : NormalizerState V)
      → Balanced (if str_eq t "session.next.shell.started" then 1 else 0) (total s) (
          if str_eq t "session.next.shell.started"
          then remember j l shells event.body s
          else if str_eq t "session.next.shell.ended"
          then shell j l pid event s
          else (ok [], s))
  after_tool pid t event s = elim (Bool-cases (str_eq t "session.next.shell.started")) [
    | inl e ↦ rw e (Balanced-remember shells event.body s)
    | inr e ↦ rw e (after_shell 0 pid t event s)
  ]

  Balanced-dispatch :
      (pid : Option ℤ) (t : String) (event : SourceEvent V) (s : NormalizerState V)
      → Balanced (starts t) (total s) (dispatch j l pid t event s)
  Balanced-dispatch pid t event s = elim (Bool-cases (str_eq t "session.next.step.started")) [
    | inl e ↦ rw e (Balanced-remember steps event.body s)
    | inr e ↦ rw e (
        Balanced-if (str_eq t "session.next.step.ended") _ (total s) (step j l event false s) _
          (Balanced-step event false s)
          (Balanced-if (str_eq t "session.next.step.failed") _ (total s) (step j l event true s) _
            (Balanced-step event true s)
            (elim (Bool-cases (str_eq t "session.next.tool.called")) [
              | inl a ↦ rw a (Balanced-remember tools event.body s)
              | inr a ↦ rw a (
                  Balanced-if (str_eq t "session.next.tool.success") _ (total s)
                    (tool j l pid event false s) _ (Balanced-tool pid event false s)
                    (Balanced-if (str_eq t "session.next.tool.failed") _ (total s)
                      (tool j l pid event true s) _ (Balanced-tool pid event true s)
                      (after_tool pid t event s)))
            ])))
  ]

  Balanced-checked :
      (r : Result (Unit {0}) String) (event : SourceEvent V) (n : Normalizer V)
      → Balanced
          (starts (unwrap_or event.event_type ""))
          (total n.state)
          (normalize_checked j l r event n)
  Balanced-checked (err e) event n = (omega arith, omega arith)
  Balanced-checked (ok _) event n =
      Balanced-dispatch n.pid (unwrap_or event.event_type "") event n.state

  -- An event gives at most one envelope, and the envelopes and the starts left pending are together
  -- no more than the starts that were pending before and the one that the event is, if it is one.
  pub normalize_lem :
      (event : SourceEvent V) (n : Normalizer V)
      → (emitted (normalize j l event n).0 ≤ 1)
        × (emitted (normalize j l event n).0 + total (normalize j l event n).1
            ≤ total n.state + starts (unwrap_or event.event_type ""))
  unfolding normalize
  normalize_lem event n = Balanced-checked (check_data j l event.body) event n
