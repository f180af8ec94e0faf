-- ===== src/Base/Json.antt =====
-- What encoding/json decodes into an `interface{}`: the Go code asks such a value for its type and goes
-- on. `F` is float64, the type of every number that it decodes.
use mathlib.Core.Bool.{Bool, false}
use mathlib.Core.Option.{Option, none, some}
use mathlib.Core.List.{List, [], ◌∷◌}
use mathlib.Core.Path.{◌≡◌, refl, ap}
use Prim.Native.String.{String}
use tokenomics.Base.Dict.{Dict, lookup, insert, or_default, lookup-insert_self}
use tokenomics.Base.Eq.{string_eq}

mutual
  pub data Json (F : Type 0) : Type 0 where
    null : Json F
    bool : Bool → Json F
    number : F → Json F
    text : String → Json F
    array : Items F → Json F
    object : Fields F → Json F

  pub data Items (F : Type 0) : Type 0 where
    nil : Items F
    cons : Json F → Items F → Items F

  pub data Fields (F : Type 0) : Type 0 where
    end : Fields F
    field : String → Json F → Fields F → Fields F

-- `map[string]interface{}`
abbrev pub Object : Type 0 → Type 0
Object F = Dict String (Json F)

module _ {F : Type 0} where
  abbrev pub of_items : Items F → List (Json F)
  of_items nil = []
  of_items (cons j js) = j ∷ of_items js

  abbrev pub to_items : List (Json F) → Items F
  to_items [] = nil
  to_items (j ∷ js) = cons j (to_items js)

  abbrev pub of_fields : Fields F → Object F
  of_fields end = []
  of_fields (field k j fs) = (k, j) ∷ of_fields fs

  abbrev pub to_fields : Object F → Fields F
  to_fields [] = end
  to_fields ((k, j) ∷ o) = field k j (to_fields o)

  -- The type assertions `v.(T)`, with `none` for a value of another type or a missing key.
  abbrev pub as_object : Option (Json F) → Option (Object F)
  as_object (some (object fs)) = some (of_fields fs)
  as_object _ = none

  abbrev pub as_array : Option (Json F) → Option (List (Json F))
  as_array (some (array js)) = some (of_items js)
  as_array _ = none

  abbrev pub as_text : Option (Json F) → Option String
  as_text (some (text s)) = some s
  as_text _ = none

  abbrev pub as_number : Option (Json F) → Option F
  as_number (some (number x)) = some x
  as_number _ = none

  -- `v, _ := m[k].(string)` and the like, with Go's zero value.
  abbrev pub text_at : String → Object F → String
  text_at k o = or_default "" (as_text (lookup k o))

  abbrev pub array_at : String → Object F → List (Json F)
  array_at k o = or_default [] (as_array (lookup k o))

  abbrev as_bool : Option (Json F) → Bool
  as_bool (some (bool b)) = b
  as_bool _ = false

  abbrev pub bool_at : String → Object F → Bool
  bool_at k o = as_bool (lookup k o)

  pub of_fields-to_fields : (o : Object F) → of_fields (to_fields o) ≡ o
  of_fields-to_fields [] = refl
  of_fields-to_fields ((k, j) ∷ o) = ap (λ p. (k, j) ∷ p) (of_fields-to_fields o)

  pub text_at-insert : (k s : String) (o : Object F) → text_at k (insert k (text s) o) ≡ s
  text_at-insert k s o = rw (lookup-insert_self k (text s) o) refl
