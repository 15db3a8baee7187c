-- ===== src/Json/Tree.antt =====
-- A JSON tree that meets the laws, for runs at concrete values.
use agentic_footprint.Prelude.{
  ℕ, String, ◌≡◌, refl, Bool, Option, none, some, List, [], ◌∷◌, if◌then◌else◌, str_eq, is_some,
  true, false, str_append,
}
use agentic_footprint.Prelude.Int.{ℤ, pos}
use agentic_footprint.Prelude.Keyed.{string_key, lookup}
use agentic_footprint.Json.{Json, JsonLaws}

mutual
  pub data Tree : Type 0 where
    text : String → Tree
    float : ℤ → Tree
    count : ℕ → Tree
    flag : Bool → Tree
    object : Members → Tree
    array : Elements → Tree

  pub data Members : Type 0 where
    end : Members
    member : String → Tree → Members → Members

  pub data Elements : Type 0 where
    stop : Elements
    element : Tree → Elements → Elements

of_list : List (String × Tree) → Members
of_list [] = end
of_list ((k, v) ∷ m) = member k v (of_list m)

find : String → Members → Option Tree
find k end = none
find k (member j v m) = if str_eq j k then some v else find k m

get : Tree → String → Option Tree
unfolding find
get (object m) k = find k m
get _ k = none

as_str : Tree → Option String
as_str (text s) = some s
as_str _ = none

as_f64 : Tree → Option ℤ
as_f64 (float x) = some x
as_f64 _ = none

as_u64 : Tree → Option ℕ
as_u64 (count n) = some n
as_u64 _ = none

as_i64 : Tree → Option ℤ
as_i64 (count n) = some (pos n)
as_i64 _ = none

elements : Elements → List Tree
elements stop = []
elements (element t ts) = t ∷ elements ts

as_array : Tree → Option (List Tree)
unfolding elements
as_array (array ts) = some (elements ts)
as_array _ = none

as_bool : Tree → Option Bool
as_bool (flag b) = some b
as_bool _ = none

is_object : Tree → Bool
is_object (object _) = true
is_object _ = false

-- The texts that occur, with the punctuation left out.
mutual
  to_text : Tree → String
  to_text (text s) = s
  to_text (object m) = members_text m
  to_text _ = ""

  members_text : Members → String
  members_text end = ""
  members_text (member k v m) = str_append k (str_append (to_text v) (members_text m))

or_insert : Tree → String → Tree → Tree
unfolding find
or_insert (object m) k v = if is_some (find k m) then object m else object (member k v m)
or_insert t k v = t

instance unfoldable pub tree_json : Json Tree ℤ
unfolding of_list get as_str as_f64 as_u64 as_i64 elements as_array as_bool is_object to_text
    members_text or_insert
tree_json = record {
  get = get;
  as_str = as_str;
  as_f64 = as_f64;
  as_u64 = as_u64;
  as_i64 = as_i64;
  as_bool = as_bool;
  as_array = as_array;
  is_object = is_object;
  is_null = λ t. false;
  to_text = to_text;
  object = λ m. object (of_list m);
  text = text;
  float = float;
  count = count;
  flag = flag;
  or_insert = or_insert;
}

find-of_list : (k : String) (m : List (String × Tree)) → find k (of_list m) ≡ lookup k m
unfolding find of_list lookup
find-of_list k [] = refl
find-of_list k ((j, v) ∷ m) = rw (find-of_list k m)

pub tree_json-JsonLaws : JsonLaws Tree ℤ
unfolding tree_json
tree_json-JsonLaws = record {
  get-object = λ m k. find-of_list k m;
  as_str-text = λ s. refl;
  as_f64-float = λ x. refl;
}
