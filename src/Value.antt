-- ===== src/Value.antt =====
-- What a request or a file holds before it is checked: the `unknown` of TypeScript, as far as JSON
-- and the program's own objects reach. A field that is not there reads as `undefined`.
use teamclaw.Prelude.{
  ℕ, String, Bool, true, false, ◌&&◌, ◌||◌, not, Option, none, some, List, [], ◌∷◌, map, str_truthy,
  ◌≡◌, refl, ap, str_eq, if◌then◌else◌, ltb, leb, ◌==◌,
}

-- A finite number: its sign, its whole part and what stands after the point, in 10 ^ -20.
pub record Number : Type 0 where
  pub is_negative : Bool
  pub whole : ℕ
  pub fraction : ℕ

mutual
  pub data Value : Type 0 where
    undefined null : Value
    boolean : Bool → Value
    number : Number → Value
    text : String → Value
    array : Items → Value
    object : Fields → Value

  pub data Items : Type 0 where
    nil : Items
    cons : Value → Items → Items

  pub data Fields : Type 0 where
    end : Fields
    with : String → Value → Fields → Fields

abbrev pub items : Items → List Value
items nil = []
items (cons v vs) = v ∷ items vs

abbrev pub of_list : List Value → Items
of_list [] = nil
of_list (v ∷ vs) = cons v (of_list vs)

pub items-of_list : (vs : List Value) → items (of_list vs) ≡ vs
items-of_list [] = refl
items-of_list (v ∷ vs) = ap (λ r. v ∷ r) (items-of_list vs)

-- Object.entries(o)
abbrev pub entries : Fields → List (String × Value)
entries end = []
entries (with k v fs) = (k, v) ∷ entries fs

abbrev pub lookup : Fields → String → Value
lookup end name = undefined
lookup (with k v fs) name = if str_eq k name then v else lookup fs name

-- input.name, for a value that is an object or an array.
abbrev pub field : Value → String → Value
field (object fs) name = lookup fs name
field _ name = undefined

-- raw && typeof raw === "object"
abbrev pub is_object : Value → Bool
is_object (array vs) = true
is_object (object fs) = true
is_object _ = false

abbrev pub is_zero : Number → Bool
is_zero n = n.whole == 0 && n.fraction == 0

-- Boolean(raw)
abbrev pub truthy : Value → Bool
truthy undefined = false
truthy null = false
truthy (boolean b) = b
truthy (number n) = not (is_zero n)
truthy (text s) = str_truthy s
truthy (array vs) = true
truthy (object fs) = true

-- Array.isArray(raw) ? raw : []
abbrev pub list_of : Value → List Value
list_of (array vs) = items vs
list_of _ = []

-- n >= k and n < k for a whole number k, and Number.isInteger(n)
abbrev pub at_least : ℕ → Number → Bool
at_least k n = (k == 0 && is_zero n) || (not n.is_negative && leb k n.whole)

abbrev pub is_below : ℕ → Number → Bool
is_below k n = (n.is_negative && not (k == 0 && is_zero n)) || ltb n.whole k

-- n > 0
abbrev pub is_positive : Number → Bool
is_positive n = not n.is_negative && not (is_zero n)

abbrev pub is_integer : Number → Bool
is_integer n = n.fraction == 0

abbrev pub natural : ℕ → Number
natural n = record { is_negative = false; whole = n; fraction = 0 }

abbrev pub option_text : Option String → Value
option_text none = undefined
option_text (some s) = text s

abbrev pub texts : List String → Value
texts ss = array (of_list (map (λ s. text s) ss))
