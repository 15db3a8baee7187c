-- ===== src/Prelude/Text/Laws.antt =====
-- Texts that are put together.
use Prim.Native.Char.{Char}
use Prim.Native.String.append.{nil, cons}
use agentic_footprint.Prelude.{String, str_append, ◌≡◌, refl, ap}

pub nil-append : (t : String) → str_append "" t ≡ t
nil-append t = λ i. nil t i

pub cons-append :
    (c : Char) (s t : String) → str_append (String.◌∷◌ c s) t ≡ String.◌∷◌ c (str_append s t)
cons-append c s t = λ i. cons c s t i

pub append_assoc : (a b c : String) → str_append (str_append a b) c ≡ str_append a (str_append b c)
append_assoc String.[] b c = rw (nil-append b, nil-append (str_append b c)) refl
append_assoc (String.◌∷◌ x a) b c =
    rw (cons-append x a b, cons-append x (str_append a b) c, cons-append x a (str_append b c))
      (ap (String.◌∷◌ x) (append_assoc a b c))
