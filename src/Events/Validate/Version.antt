-- ===== src/Events/Validate/Version.antt =====
-- crates/af-events/src/validate.rs: the grammar of the supported schema versions.
use Prim.Native.Char.{Char, char, code}
use text.Mathlib.TextEquality.{Char-path}
use agentic_footprint.Prelude.{
  ℕ, String, str_append, ◌≡◌, ◌↔◌, refl, sym, ap, ◌∙◌, true, false, ◌&&◌, not, List, [], ◌∷◌, leb,
  ◌==◌, ==_iff, str_eq, eq_iff, Bool-cases, inl, inr, both, arith, false≢true,
}
use agentic_footprint.Prelude.Text.{join}
use agentic_footprint.Prelude.Text.Laws.{nil-append, cons-append}
use agentic_footprint.Events.Validate.{
  push_char, split_dots, all_digits, is_version, is_supported_version,
}

-- `^0\.1\.[0-9]+$`: some digits behind the fixed text.
abbrev pub IsSupported : String → Type 0
IsSupported version =
    (patch : String) × (version ≡ str_append "0.1." patch)
    × (str_eq patch "" ≡ false)
    × (all_digits patch ≡ true)

join-push_char :
    (c : Char) (ps : List String)
    → join "." (push_char (String.◌∷◌ c "") ps) ≡ String.◌∷◌ c (join "." ps)
join-push_char c [] = refl
join-push_char c (p ∷ []) = cons-append c "" p ∙ ap (String.◌∷◌ c) (nil-append p)
join-push_char c (p ∷ q ∷ ps) =
    rw (cons-append c "" p, nil-append p) (cons-append c p (str_append "." (join "." (q ∷ ps))))

dot_cons : (c : Char) (s : String) → code c ≡ b'.' → str_append "." s ≡ String.◌∷◌ c s
dot_cons c s e =
    cons-append (char b'.' tt) "" s
    ∙ ap (String.◌∷◌ (char b'.' tt)) (nil-append s)
    ∙ ap (λ d. String.◌∷◌ d s) (sym (Char-path c (char b'.' tt) e))

-- There is a part at least.
abbrev IsCons : List String → Type 0
IsCons ps = (q : String) × (qs : List String) × (ps ≡ q ∷ qs)

push_char-IsCons : (c : String) (ps : List String) → IsCons (push_char c ps)
push_char-IsCons c [] = (c, [], refl)
push_char-IsCons c (p ∷ ps) = (str_append c p, ps, refl)

split_dots-IsCons : (s : String) → IsCons (split_dots s)
unfolding split_dots
split_dots-IsCons String.[] = ("", [], refl)
split_dots-IsCons (String.◌∷◌ c s) = elim (Bool-cases (code c == b'.')) [
  | inl e ↦ rw e ("", split_dots s, refl)
  | inr e ↦ rw e (push_char-IsCons (String.◌∷◌ c "") (split_dots s))
]

join-first_dot :
    (c : Char) (ps : List String)
    → code c ≡ b'.'
    → IsCons ps
    → join "." ("" ∷ ps) ≡ String.◌∷◌ c (join "." ps)
join-first_dot c ps e (q, qs, p) =
    rw p (nil-append (str_append "." (join "." (q ∷ qs))) ∙ dot_cons c (join "." (q ∷ qs)) e)

-- The parts of a text, put together again.
join-split_dots : (s : String) → join "." (split_dots s) ≡ s
unfolding split_dots
join-split_dots String.[] = refl
join-split_dots (String.◌∷◌ c s) =
    let ih = ap (String.◌∷◌ c) (join-split_dots s) in
    elim (Bool-cases (code c == b'.')) [
      | inl e ↦
          rw e (
            join-first_dot c (split_dots s) ((==_iff (code c) b'.').0 e) (split_dots-IsCons s) ∙ ih)
      | inr e ↦ rw e (join-push_char c (split_dots s) ∙ ih)
    ]

digit_not_dot : (n : ℕ) → leb b'0' n ≡ true → leb n b'9' ≡ true → (n == b'.') ≡ false
digit_not_dot n low high = ground arith

split_dots-all_digits : (s : String) → all_digits s ≡ true → split_dots s ≡ s ∷ []
unfolding split_dots all_digits
split_dots-all_digits String.[] h = refl
split_dots-all_digits (String.◌∷◌ c s) h =
    let (digit, rest) = both (leb b'0' (code c) && leb (code c) b'9') (all_digits s) h in
    let (low, high) = both (leb b'0' (code c)) (leb (code c) b'9') digit in
    rw (digit_not_dot (code c) low high, split_dots-all_digits s rest)
      (ap (λ t. t ∷ []) (cons-append c "" s ∙ ap (String.◌∷◌ c) (nil-append s)))

prefix-append :
    (patch : String)
    → str_append "0.1." patch
      ≡ String.◌∷◌
          (char b'0' tt)
          (String.◌∷◌ (char b'.' tt) (String.◌∷◌ (char b'1' tt) (String.◌∷◌ (char b'.' tt) patch)))
prefix-append patch =
    cons-append (char b'0' tt) ".1." patch
    ∙ ap (String.◌∷◌ (char b'0' tt)) (
        cons-append (char b'.' tt) "1." patch
        ∙ ap (String.◌∷◌ (char b'.' tt)) (
            cons-append (char b'1' tt) "." patch
            ∙ ap (String.◌∷◌ (char b'1' tt)) (
                cons-append (char b'.' tt) "" patch
                ∙ ap (String.◌∷◌ (char b'.' tt)) (nil-append patch))))

-- The fixed text in front of some digits, in its three parts.
split_dots-prefix :
    (patch : String)
    → all_digits patch ≡ true
    → split_dots (str_append "0.1." patch) ≡ "0" ∷ "1" ∷ patch ∷ []
unfolding split_dots
split_dots-prefix patch h = rw (prefix-append patch, split_dots-all_digits patch h) refl

is_version-parts :
    (ps : List String)
    → is_version ps ≡ true
    → (patch : String) × (ps ≡ "0" ∷ "1" ∷ patch ∷ [])
      × (str_eq patch "" ≡ false)
      × (all_digits patch ≡ true)
is_version-parts [] h = absurd (false≢true h)
is_version-parts (a ∷ []) h = absurd (false≢true h)
is_version-parts (a ∷ b ∷ []) h = absurd (false≢true h)
is_version-parts (a ∷ b ∷ c ∷ d ∷ ps) h = absurd (false≢true h)
is_version-parts (major ∷ minor ∷ patch ∷ []) h =
    let (front, back) =
      both (str_eq major "0" && str_eq minor "1") (not (str_eq patch "") && all_digits patch) h in
    let (zeroth, first) = both (str_eq major "0") (str_eq minor "1") front in
    let (non_empty, digits) = both (not (str_eq patch "")) (all_digits patch) back in
    (patch, rw ((eq_iff major "0").0 zeroth, (eq_iff minor "1").0 first) refl, ground arith, digits)

join-prefix : (patch : String) → join "." ("0" ∷ "1" ∷ patch ∷ []) ≡ str_append "0.1." patch
join-prefix patch =
    cons-append (char b'0' tt) "" (str_append "." (str_append "1" (str_append "." patch)))
    ∙ ap (String.◌∷◌ (char b'0' tt)) (
        nil-append (str_append "." (str_append "1" (str_append "." patch)))
        ∙ dot_cons (char b'.' tt) (str_append "1" (str_append "." patch)) refl
        ∙ ap (String.◌∷◌ (char b'.' tt)) (
            cons-append (char b'1' tt) "" (str_append "." patch)
            ∙ ap (String.◌∷◌ (char b'1' tt))
                (nil-append (str_append "." patch) ∙ dot_cons (char b'.' tt) patch refl)))
    ∙ sym (prefix-append patch)

-- A version is supported exactly when it is the text `0.1.` and one decimal digit at least behind it.
pub is_supported_version-IsSupported :
    (version : String) → (is_supported_version version ≡ true) ↔ IsSupported version
unfolding is_supported_version
is_supported_version-IsSupported version = (
  λ h.
      let (patch, parts, non_empty, digits) = is_version-parts (split_dots version) h in
      (
        patch,
        sym (join-split_dots version) ∙ ap (join ".") parts ∙ join-prefix patch,
        non_empty,
        digits,
      ),
  λ (patch, text, non_empty, digits).
      rw (text, split_dots-prefix patch digits, non_empty, digits) refl,
)
