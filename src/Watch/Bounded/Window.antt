-- ===== src/Watch/Bounded/Window.antt =====
-- crates/af-cli/src/cmd/watch.rs: `BoundedSet` beside the whole list of the announced ids.
use agentic_footprint.Prelude.{
  ℕ, ◌≤◌, String, ◌≡◌, refl, sym, ap, ◌∙◌, inl, inr, Bool, true, false, ◌||◌, false≢true, List, [],
  ◌∷◌, ◌++◌, max, length, length-append, ltb, if◌then◌else◌, any, any-append, str_eq, eq_iff,
  Bool-cases, arith, neither,
}
use agentic_footprint.Prelude.Keyed.{string_key, contains}
use agentic_footprint.Watch.Bounded.{BoundedSet, new, set_remove, evict, insert, insert_all}

-- The last `n` of a list.
abbrev pub recent : ℕ → List String → List String
recent n [] = []
recent n (x ∷ xs) = let rest = recent n xs in if ltb n (length (x ∷ xs)) then rest else x ∷ xs

-- An id is announced when it is not among the last `capacity` announced ones.
abbrev pub announce : ℕ → List String → List String → List Bool
announce capacity log [] = []
announce capacity log (key ∷ keys) =
    let old = announce capacity log keys in
    let fresh = announce capacity (log ++ key ∷ []) keys in
    if contains (recent capacity log) key then false ∷ old else true ∷ fresh

abbrev pub Distinct : List String → Type 0
Distinct [] = Unit
Distinct (x ∷ xs) = (contains xs x ≡ false) × Distinct xs

abbrev Mirror : List String → List String → Type 0
Mirror seen order = (k : String) → contains seen k ≡ contains order k

evict-recent : (n : ℕ) (order seen : List String) → (evict n order seen).0 ≡ recent n order
unfolding evict
evict-recent n [] seen = refl
evict-recent n (x ∷ xs) seen = elim (Bool-cases (ltb n (length (x ∷ xs)))) [
  | inl e ↦ rw e (evict-recent n xs (set_remove x seen))
  | inr e ↦ rw e refl
]

recent-bound : (n : ℕ) (xs : List String) → length (recent n xs) ≤ n
recent-bound n [] = omega arith
recent-bound n (x ∷ xs) = elim (Bool-cases (ltb n (length (x ∷ xs)))) [
  | inl e ↦ rw e (recent-bound n xs)
  | inr e ↦ rw e (ground arith)
]

recent-append : (n : ℕ) (xs ys : List String) → recent n (recent n xs ++ ys) ≡ recent n (xs ++ ys)
recent-append n [] ys = refl
recent-append n (x ∷ xs) ys = elim (Bool-cases (ltb n (length (x ∷ xs)))) [
  | inl e ↦
      (let longer : ltb n (length (x ∷ (xs ++ ys))) ≡ true = ground (arith, length-append xs ys) in
        rw (e, longer) (recent-append n xs ys))
  | inr e ↦ rw e refl
]

contains-set_remove :
    (x k : String) (xs : List String)
    → contains (set_remove x xs) k ≡ (if str_eq x k then false else contains xs k)
contains-set_remove x k [] = elim (Bool-cases (str_eq x k)) [
  | inl e ↦ rw e refl
  | inr e ↦ rw e refl
]
contains-set_remove x k (y ∷ xs) = elim (Bool-cases (str_eq y x)) [
  | inl e ↦
      (let p : y ≡ x = (eq_iff y x).0 e in
        rw (e, contains-set_remove x k xs, p) (same-if (str_eq x k) (contains xs k)))
  | inr e ↦ rw (e, contains-set_remove x k xs) (other e)
]
  where
    same-if : (a b : Bool) → (if a then false else b) ≡ (if a then false else a || b)
    same-if true b = refl
    same-if false b = refl

    other :
        str_eq y x ≡ false
        → (str_eq y k || (if str_eq x k then false else contains xs k))
          ≡ (if str_eq x k then false else str_eq y k || contains xs k)
    other e = elim (Bool-cases (str_eq x k)) [
      | inl a ↦ (let p : x ≡ k = (eq_iff x k).0 a in rw (a, sym p, e) refl)
      | inr a ↦ rw a refl
    ]

Mirror-evict :
    (n : ℕ) (order seen : List String)
    → Distinct order
    → Mirror seen order
    → Mirror (evict n order seen).1 (evict n order seen).0
unfolding evict
Mirror-evict n [] seen d m = m
Mirror-evict n (x ∷ xs) seen d m = elim (Bool-cases (ltb n (length (x ∷ xs)))) [
  | inl e ↦ rw e (Mirror-evict n xs (set_remove x seen) d.1 smaller)
  | inr e ↦ rw e m
]
  where
    without :
        (k : String) → (if str_eq x k then false else str_eq x k || contains xs k) ≡ contains xs k
    without k = elim (Bool-cases (str_eq x k)) [
      | inl a ↦ (let p : x ≡ k = (eq_iff x k).0 a in rw a (sym (rw p at d.0)))
      | inr a ↦ rw a refl
    ]

    smaller : Mirror (set_remove x seen) xs
    smaller k =
        contains-set_remove x k seen ∙ ap (λ b. if str_eq x k then false else b) (m k) ∙ without k

Distinct-recent : (n : ℕ) (xs : List String) → Distinct xs → Distinct (recent n xs)
Distinct-recent n [] d = tt
Distinct-recent n (x ∷ xs) d = elim (Bool-cases (ltb n (length (x ∷ xs)))) [
  | inl e ↦ rw e (Distinct-recent n xs d.1)
  | inr e ↦ rw e d
]

str_eq-sym : (x y : String) → str_eq x y ≡ false → str_eq y x ≡ false
str_eq-sym x y h = elim (Bool-cases (str_eq y x)) [
  | inl e ↦
      (let p : y ≡ x = (eq_iff y x).0 e in absurd (false≢true (sym h ∙ (eq_iff x y).1 (sym p))))
  | inr e ↦ e
]

pub Distinct-append :
    (xs : List String) (x : String) → Distinct xs → contains xs x ≡ false → Distinct (xs ++ x ∷ [])
Distinct-append [] x d h = (refl, tt)
Distinct-append (y ∷ xs) x d h =
    let a = neither (str_eq y x) (contains xs x) h in
    let b : str_eq x y ≡ false = str_eq-sym y x a.0 in
    (any-append (λ z. str_eq z y) xs (x ∷ []) ∙ rw (d.0, b) refl, Distinct-append xs x d.1 a.1)

-- What holds of the set between calls, given the announced ids.
pub record IsWindow (log : List String) (s : BoundedSet) : Type 0 where
  pub mirror : (k : String) → contains s.seen k ≡ contains s.order k
  pub distinct : Distinct s.order
  pub window : s.order ≡ recent s.capacity log

pub new-IsWindow : (capacity : ℕ) → IsWindow [] (new capacity)
new-IsWindow capacity = record { mirror = λ k. refl; distinct = tt; window = refl }

-- The set after an id that is announced.
abbrev announced : String → BoundedSet → BoundedSet
announced key s =
    let kept = evict s.capacity (s.order ++ key ∷ []) (s.seen ++ key ∷ []) in
    record { seen = kept.1; order = kept.0; capacity = s.capacity }

announced-IsWindow :
    (log : List String) (key : String) (s : BoundedSet)
    → IsWindow log s
    → contains s.seen key ≡ false
    → IsWindow (log ++ key ∷ []) (announced key s)
announced-IsWindow log key s w h =
    let order = s.order ++ key ∷ [] in
    let seen = s.seen ++ key ∷ [] in
    let r = evict-recent s.capacity order seen in
    let absent : contains s.order key ≡ false = sym (w.mirror key) ∙ h in
    let d = Distinct-append s.order key w.distinct absent in
    record {
      mirror = Mirror-evict s.capacity order seen d (λ k.
          any-append (λ y. str_eq y k) s.seen (key ∷ [])
          ∙ ap (λ b. b || any (λ y. str_eq y k) (key ∷ [])) (w.mirror k)
          ∙ sym (any-append (λ y. str_eq y k) s.order (key ∷ [])));
      distinct = rw r (Distinct-recent s.capacity order d);
      window =
          r
          ∙ ap (λ xs. recent s.capacity (xs ++ key ∷ [])) w.window
          ∙ recent-append s.capacity log (key ∷ []);
    }

insert_all-announce :
    (keys log : List String) (s : BoundedSet)
    → IsWindow log s
    → insert_all keys s ≡ announce s.capacity log keys
unfolding insert_all insert
insert_all-announce [] log s w = refl
insert_all-announce (key ∷ keys) log s w =
    let same : contains s.seen key ≡ contains (recent s.capacity log) key =
      w.mirror key ∙ ap (λ xs. contains xs key) w.window in
    elim (Bool-cases (contains s.seen key)) [
      | inl e ↦ rw (e, sym same ∙ e) (ap (λ bs. false ∷ bs) (insert_all-announce keys log s w))
      | inr e ↦
          rw (e, sym same ∙ e)
            (ap (λ bs. true ∷ bs)
              (insert_all-announce keys (log ++ key ∷ []) (announced key s)
                (announced-IsWindow log key s w e)))
    ]

-- A new set answers each id as one that keeps the whole list of the announced ids does, and looks the
-- id up in the last of them, as many as the capacity, which is one at least.
pub insert_all_lem :
    (capacity : ℕ) (keys : List String)
    → insert_all keys (new capacity) ≡ announce (max capacity 1) [] keys
insert_all_lem capacity keys = insert_all-announce keys [] (new capacity) (new-IsWindow capacity)
