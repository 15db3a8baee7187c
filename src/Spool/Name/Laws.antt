-- ===== src/Spool/Name/Laws.antt =====
-- File names and their parts: printing and parsing.
use Prim.Native.Char.{Char, code}
use agentic_footprint.Prelude.{
  ℕ, suc, ◌+◌, String, str_append, Bool, true, false, ◌&&◌, some, ◌==◌, str_eq, eq_iff,
  if◌then◌else◌, ◌≡◌, refl, sym, ap, ◌∙◌, Bool-cases, inl, inr, both, arith, false≢true,
}
use agentic_footprint.Prelude.Text.Laws.{nil-append, cons-append, append_assoc}
use agentic_footprint.Spool.Name.{
  suffix, spool_file_name, strip_suffix, split_once, from_parts, from_rest, parse_spool_filename,
}

abbrev pub dotless : String → Bool
dotless String.[] = true
dotless (String.◌∷◌ c s) = (if code c == b'.' then false else true) && dotless s

chars : String → ℕ
chars String.[] = 0
chars (String.◌∷◌ c s) = suc (chars s)

chars-append : (a b : String) → chars (str_append a b) ≡ chars a + chars b
unfolding chars
chars-append String.[] b = rw (nil-append b) (omega arith)
chars-append (String.◌∷◌ c a) b = rw (cons-append c a b) (omega (arith, chars-append a b))

dot : (r : String) → split_once (str_append "." r) ≡ some ("", r)
unfolding split_once
dot r = ap split_once (cons-append _ "" r) ∙ ap (λ s. some ("", s)) (nil-append r)

split_once-dotless :
    (c r : String) → dotless c ≡ true → split_once (str_append c (str_append "." r)) ≡ some (c, r)
unfolding split_once
split_once-dotless String.[] r h = rw (nil-append (str_append "." r), dot r) refl
split_once-dotless (String.◌∷◌ x c) r h =
    let (byte, rest) = both (if code x == b'.' then false else true) (dotless c) h in
    elim (Bool-cases (code x == b'.')) [
      | inl e ↦ absurd (false≢true (sym (rw e refl) ∙ byte))
      | inr e ↦ rw (cons-append x c (str_append "." r), e, split_once-dotless c r rest) refl
    ]

-- No name that goes on before the suffix is the suffix.
longer : (c : Char) (s : String) → str_eq (String.◌∷◌ c (str_append s suffix)) suffix ≡ false
unfolding chars
longer c s = elim (Bool-cases (str_eq (String.◌∷◌ c (str_append s suffix)) suffix)) [
  | inl e ↦
      (let same = ap chars ((eq_iff (String.◌∷◌ c (str_append s suffix)) suffix).0 e) in
        absurd (omega (arith, same, chars-append s suffix)))
  | inr e ↦ e
]

strip_suffix-append : (s : String) → strip_suffix (str_append s suffix) ≡ some s
unfolding strip_suffix
strip_suffix-append String.[] = refl
strip_suffix-append (String.◌∷◌ c s) =
    rw (cons-append c s suffix, longer c s, strip_suffix-append s) refl

-- A name that is made of a collector without a dot and of a session, neither of them empty, parses into them.
pub parse_spool_filename-spool_file_name :
    {P : Type 0} (collector session : String) (path : P)
    → dotless collector ≡ true
    → str_eq collector "" ≡ false
    → str_eq session "" ≡ false
    → parse_spool_filename (spool_file_name collector session) path
      ≡ some (record { collector = collector; session_id = session; path = path })
unfolding parse_spool_filename spool_file_name from_rest from_parts
parse_spool_filename-spool_file_name collector session path d c s =
    let name = str_append collector (str_append "." session) in
    let assoc =
      append_assoc collector (str_append "." session) suffix
      ∙ ap (str_append collector) (append_assoc "." session suffix) in
    rw (← assoc, strip_suffix-append name, split_once-dotless collector session d, c, s) refl
