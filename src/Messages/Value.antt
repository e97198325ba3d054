-- ===== src/Messages/Value.antt =====
-- `interface{}` values as encoding/json decodes them with UseNumber, and how fmt prints them by %v.
use go_relay.Base.{Bool, true, false, List, [], ◌∷◌, ◌++◌, Text, lit}

mutual
  pub data Value : Type 0 where
    null : Value
    boolean : Bool → Value
    number : Text → Value
    str : Text → Value
    arr : Items → Value
    obj : Fields → Value

  pub data Items : Type 0 where
    nil : Items
    cons : Value → Items → Items

  pub data Fields : Type 0 where
    end : Fields
    field : Text → Value → Fields → Fields

-- `true` if a value was printed before: fmt puts a space between two.
abbrev pub spaced : Bool → Text → Text
spaced true s = lit " " ++ s
spaced false s = s

unfoldable mutual
  pub show : Value → Text
  show null = lit "<nil>"
  show (boolean true) = lit "true"
  show (boolean false) = lit "false"
  show (number n) = n
  show (str s) = s
  show (arr xs) = lit "[" ++ (show_items false xs ++ lit "]")
  show (obj fs) = lit "map[" ++ (show_fields false fs ++ lit "]")

  pub show_items : Bool → Items → Text
  show_items sep nil = []
  show_items sep (cons v xs) = spaced sep (show v) ++ show_items true xs

  pub show_fields : Bool → Fields → Text
  show_fields sep end = []
  show_fields sep (field k v fs) = spaced sep (k ++ (lit ":" ++ show v)) ++ show_fields true fs

abbrev pub items : Items → List Value
items nil = []
items (cons v xs) = v ∷ items xs
