-- ===== src/Json.antt =====
-- `serde_json::Value`, as a parameter: the accessors and the `json!` constructors that the code
-- uses, and the documented laws that relate them.
pub mod Tree
use agentic_footprint.Prelude.{ℕ, String, ◌≡◌, Bool, Option, none, some, List, and_then}
use agentic_footprint.Prelude.Int.{ℤ}
use agentic_footprint.Prelude.Keyed.{string_key, lookup}

pub record Json (V F : Type 0) : Type 0 where
  pub get : V → String → Option V
  pub as_str : V → Option String
  pub as_f64 : V → Option F
  pub as_u64 : V → Option ℕ
  pub as_i64 : V → Option ℤ
  pub as_bool : V → Option Bool
  pub as_array : V → Option (List V)
  pub is_object : V → Bool
  pub is_null : V → Bool
  -- `Value::to_string`.
  pub to_text : V → String
  pub object : List (String × V) → V
  pub text : String → V
  pub float : F → V
  pub count : ℕ → V
  pub flag : Bool → V
  -- `as_object_mut`, then `entry(k).or_insert(v)`; a value that is no object stays as it is.
  pub or_insert : V → String → V → V

pub record JsonLaws (V F : Type 0) ⦃j : Json V F⦄ : Type 0 where
  pub get-object : (m : List (String × V)) (k : String) → j.get (j.object m) k ≡ lookup k m
  pub as_str-text : (s : String) → j.as_str (j.text s) ≡ some s
  pub as_f64-float : (x : F) → j.as_f64 (j.float x) ≡ some x

-- `value.get(k).and_then(Value::as_str)`.
abbrev pub get_str : {V F : Type 0} → Json V F → V → String → Option String
get_str j v k = and_then (j.get v k) j.as_str

-- `value.pointer("/a/b").and_then(Value::as_f64)`, for two member names.
abbrev pub pointer_f64 : {V F : Type 0} → Json V F → V → String → String → Option F
pointer_f64 j v a b = and_then (and_then (j.get v a) (λ w. j.get w b)) j.as_f64
