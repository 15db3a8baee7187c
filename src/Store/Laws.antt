-- ===== src/Store/Laws.antt =====
-- crates/af-store/src/raw.rs: the ids of the events' table, and its insertions.
use agentic_footprint.Prelude.{
  ℕ, ◌+◌, String, true, false, ◌||◌, List, [], ◌∷◌, ◌++◌, foldl, All, length, str_eq, eq_refl,
  eq_iff, false≢true, neither, ◌≡◌, refl, sym, ap, ◌∙◌, Bool-cases, inl, inr, arith, any-append,
  length-append,
}
use agentic_footprint.Events.{Envelope}
use agentic_footprint.Store.{Store}
use agentic_footprint.Store.Raw.{has_id, insert_row, insert_events}

-- No two rows have the same event id: the table's primary key.
abbrev pub Distinct : {F : Type 0} → List (Envelope F) → Type 0
Distinct [] = Unit
Distinct (e ∷ es) = (has_id e.event_id es ≡ false) × Distinct es

str_eq-swap : (a b : String) → str_eq a b ≡ false → str_eq b a ≡ false
str_eq-swap a b h = elim (Bool-cases (str_eq b a)) [
  | inl e ↦ absurd (false≢true (sym h ∙ ap (str_eq a) ((eq_iff b a).0 e) ∙ eq_refl a))
  | inr e ↦ e
]

module _ {F : Type 0} where
  abbrev insert_rows : List (Envelope F) × ℕ → List (Envelope F) → List (Envelope F) × ℕ
  insert_rows = foldl insert_row

  has_id-append :
      (id : String) (xs ys : List (Envelope F))
      → has_id id (xs ++ ys) ≡ (has_id id xs || has_id id ys)
  has_id-append id xs ys = any-append (λ (e : Envelope F). str_eq e.event_id id) xs ys

  has_id-insert_row :
      (t : List (Envelope F) × ℕ) (e : Envelope F) → has_id e.event_id (insert_row t e).0 ≡ true
  unfolding insert_row
  has_id-insert_row (rows, n) e = elim (Bool-cases (has_id e.event_id rows)) [
    | inl h ↦ rw h h
    | inr h ↦ rw h (has_id-append e.event_id rows (e ∷ []) ∙ rw (h, eq_refl e.event_id) refl)
  ]

  insert_row-keeps :
      (x : String) (t : List (Envelope F) × ℕ) (e : Envelope F)
      → has_id x t.0 ≡ true
      → has_id x (insert_row t e).0 ≡ true
  unfolding insert_row
  insert_row-keeps x (rows, n) e k = elim (Bool-cases (has_id e.event_id rows)) [
    | inl h ↦ rw h k
    | inr h ↦ rw h (has_id-append x rows (e ∷ []) ∙ rw k refl)
  ]

  insert_row-skips :
      (t : List (Envelope F) × ℕ) (e : Envelope F)
      → has_id e.event_id t.0 ≡ true
      → insert_row t e ≡ t
  unfolding insert_row
  insert_row-skips (rows, n) e h = rw h refl

  Distinct-append :
      (rows : List (Envelope F)) (e : Envelope F)
      → Distinct rows
      → has_id e.event_id rows ≡ false
      → Distinct (rows ++ e ∷ [])
  Distinct-append [] e d h = (refl, tt)
  Distinct-append (r ∷ rs) e d h =
      let (other, rest) = neither (str_eq r.event_id e.event_id) (has_id e.event_id rs) h in
      (
        has_id-append r.event_id rs (e ∷ [])
            ∙ rw (d.0, str_eq-swap r.event_id e.event_id other) refl,
        Distinct-append rs e d.1 rest,
      )

  insert_row-Distinct :
      (t : List (Envelope F) × ℕ) (e : Envelope F) → Distinct t.0 → Distinct (insert_row t e).0
  unfolding insert_row
  insert_row-Distinct (rows, n) e d = elim (Bool-cases (has_id e.event_id rows)) [
    | inl h ↦ rw h d
    | inr h ↦ rw h (Distinct-append rows e d h)
  ]

  length-insert_row :
      (t : List (Envelope F) × ℕ) (e : Envelope F)
      → length (insert_row t e).0 + t.1 ≡ length t.0 + (insert_row t e).1
  unfolding insert_row
  length-insert_row (rows, n) e = elim (Bool-cases (has_id e.event_id rows)) [
    | inl h ↦ rw h refl
    | inr h ↦ rw h (omega (arith, length-append rows (e ∷ [])))
  ]

  insert_rows-keeps :
      (x : String) (es : List (Envelope F)) (t : List (Envelope F) × ℕ)
      → has_id x t.0 ≡ true
      → has_id x (insert_rows t es).0 ≡ true
  insert_rows-keeps x [] t h = h
  insert_rows-keeps x (e ∷ es) t h =
      insert_rows-keeps x es (insert_row t e) (insert_row-keeps x t e h)

  has_id-insert_rows :
      (es : List (Envelope F)) (t : List (Envelope F) × ℕ)
      → All (λ (e : Envelope F). has_id e.event_id (insert_rows t es).0 ≡ true) es
  has_id-insert_rows [] t = tt
  has_id-insert_rows (e ∷ es) t = (
    insert_rows-keeps e.event_id es (insert_row t e) (has_id-insert_row t e),
    has_id-insert_rows es (insert_row t e),
  )

  insert_rows-skips :
      (es : List (Envelope F)) (t : List (Envelope F) × ℕ)
      → All (λ (e : Envelope F). has_id e.event_id t.0 ≡ true) es
      → insert_rows t es ≡ t
  insert_rows-skips [] t h = refl
  insert_rows-skips (e ∷ es) t h =
      ap (λ u. insert_rows u es) (insert_row-skips t e h.0) ∙ insert_rows-skips es t h.1

  insert_rows-Distinct :
      (es : List (Envelope F)) (t : List (Envelope F) × ℕ)
      → Distinct t.0
      → Distinct (insert_rows t es).0
  insert_rows-Distinct [] t d = d
  insert_rows-Distinct (e ∷ es) t d =
      insert_rows-Distinct es (insert_row t e) (insert_row-Distinct t e d)

  length-insert_rows :
      (es : List (Envelope F)) (t : List (Envelope F) × ℕ)
      → length (insert_rows t es).0 + t.1 ≡ length t.0 + (insert_rows t es).1
  length-insert_rows [] t = refl
  length-insert_rows (e ∷ es) t =
      omega (arith, length-insert_rows es (insert_row t e), length-insert_row t e)

module _ {V F : Type 0} where
  -- An insertion keeps the event ids of the table distinct, reports how many rows it has added, and leaves a row for
  -- the id of each event it was given; repeated, it adds nothing.
  pub insert_events_lem :
      (es : List (Envelope F)) (s : Store V F)
      → Distinct s.raw_events
      → let (n, t) = insert_events es s in
        Distinct t.raw_events
        × (length t.raw_events ≡ length s.raw_events + n)
        × All (λ (e : Envelope F). has_id e.event_id t.raw_events ≡ true) es
        × (insert_events es t ≡ (0, t))
  unfolding insert_events
  insert_events_lem es s d =
      let t0 : List (Envelope F) × ℕ = (s.raw_events, 0) in
      let all_in = has_id-insert_rows es t0 in
      (
        insert_rows-Distinct es t0 d,
        omega (arith, length-insert_rows es t0),
        all_in,
        ap (λ (u : List (Envelope F) × ℕ). (u.1, record s { raw_events = u.0 }))
            (insert_rows-skips es ((insert_rows t0 es).0, 0) all_in),
      )
