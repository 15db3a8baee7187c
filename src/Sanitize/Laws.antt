-- ===== src/Sanitize/Laws.antt =====
-- What a sanitized id is made of, and which ids stay as they are.
use Prim.Native.Char.{Char, code}
use agentic_footprint.Prelude.{
  String, Bool, true, false, ◌&&◌, ◌==◌, if◌then◌else◌, ◌≡◌, refl, ap, sym, false≢true, ◌∙◌,
  Bool-cases, both, both_true, inl, inr, arith,
}
use agentic_footprint.Sanitize.{is_kept, strip, guard, sanitize_id}

-- Every character is of the kept ones.
abbrev pub all_kept : String → Bool
all_kept String.[] = true
all_kept (String.◌∷◌ c s) = is_kept c && all_kept s

abbrev not_dot : Char → Bool
not_dot c = if code c == b'.' then false else true

-- A component that is not empty, is not led by a dot and so is neither `.` nor `..`, and holds no separator.
abbrev pub is_safe : String → Bool
is_safe String.[] = false
is_safe (String.◌∷◌ c s) = not_dot c && (is_kept c && all_kept s)

all_kept-strip : (s : String) → all_kept (strip s) ≡ true
unfolding strip
all_kept-strip String.[] = refl
all_kept-strip (String.◌∷◌ c s) = elim (Bool-cases (is_kept c)) [
  | inl e ↦ rw e (rw e (all_kept-strip s))
  | inr e ↦ rw e (all_kept-strip s)
]

guard-byte :
    (c : Char) (s : String) → (code c == b'.') ≡ false → guard (String.◌∷◌ c s) ≡ String.◌∷◌ c s
unfolding guard
guard-byte c s e = rw e refl

not_dot-byte : (c : Char) → (code c == b'.') ≡ false → not_dot c ≡ true
not_dot-byte c e = rw e refl

is_safe-guard : (s : String) → all_kept s ≡ true → is_safe (guard s) ≡ true
unfolding guard
is_safe-guard String.[] h = refl
is_safe-guard (String.◌∷◌ c s) h = elim (Bool-cases (code c == b'.')) [
  | inl e ↦ rw e (
      both_true (is_kept c) (all_kept s) (both (is_kept c) (all_kept s) h).0
        (both (is_kept c) (all_kept s) h).1)
  | inr e ↦
      ap is_safe (guard-byte c s e)
      ∙ both_true (not_dot c) (is_kept c && all_kept s) (not_dot-byte c e) h
]

-- Whatever the id, the result is a safe path component.
pub sanitize_id-is_safe : (raw : String) → is_safe (sanitize_id raw) ≡ true
sanitize_id-is_safe raw = unfold sanitize_id in is_safe-guard (strip raw) (all_kept-strip raw)

strip-all_kept : (s : String) → all_kept s ≡ true → strip s ≡ s
unfolding strip
strip-all_kept String.[] h = refl
strip-all_kept (String.◌∷◌ c s) h =
    let (kept, rest) = both (is_kept c) (all_kept s) h in
    rw kept (ap (String.◌∷◌ c) (strip-all_kept s rest))

dot_led : (c : Char) → (code c == b'.') ≡ true → not_dot c ≡ false
dot_led c e = rw e refl

guard-is_safe : (s : String) → is_safe s ≡ true → guard s ≡ s
unfolding guard
guard-is_safe String.[] h = absurd (ground arith)
guard-is_safe (String.◌∷◌ c s) h = elim (Bool-cases (code c == b'.')) [
  | inl e ↦
      absurd (false≢true (sym (dot_led c e) ∙ (both (not_dot c) (is_kept c && all_kept s) h).0))
  | inr e ↦ guard-byte c s e
]

all_kept-is_safe : (s : String) → is_safe s ≡ true → all_kept s ≡ true
all_kept-is_safe String.[] h = refl
all_kept-is_safe (String.◌∷◌ c s) h = (both (not_dot c) (is_kept c && all_kept s) h).1

-- An id that is a safe path component is kept as it is.
pub sanitize_id-id : (raw : String) → is_safe raw ≡ true → sanitize_id raw ≡ raw
sanitize_id-id raw h =
    unfold sanitize_id in
    ap guard (strip-all_kept raw (all_kept-is_safe raw h)) ∙ guard-is_safe raw h

-- Sanitizing twice is sanitizing once.
pub sanitize_id_idempotent : (raw : String) → sanitize_id (sanitize_id raw) ≡ sanitize_id raw
sanitize_id_idempotent raw = sanitize_id-id (sanitize_id raw) (sanitize_id-is_safe raw)
