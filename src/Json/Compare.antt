-- ===== src/Json/Compare.antt =====
-- Python's comparison operators on JSON values, for the operators of a condition step. Two operands are
-- taken to share no object: Python finds an item in a list also by its identity, which makes a
-- difference for what is not a number.
pub mod Order
use Prim.Native.Nat.{compare as compare_nat, Ordering}
use Prim.Native.String.{compare as compare_text}
use text.Mathlib.Text.{find?}
use constructor.Prelude.{
  ℕ, suc, ◌+◌, ◌*◌, ◌^◌, Bool, true, false, Option, ◌&&◌, ◌||◌, none, some, ◌==◌, is_some, eqb,
}
use constructor.Prelude.Int.{ℤ, pos, pos_part, neg_part}
use constructor.Json.{
  Float, nan, infinite, finite, Value, Items, Fields, null, bool, num, float, str, arr, obj, nil,
  cons, end, field, get,
}
use constructor.Outcome.{Outcome, return, raise, type_error}

-- `bool` is a subclass of `int`.
abbrev pub of_bool : Bool → ℤ
of_bool true = pos 1
of_bool false = pos 0

-- How two numbers are ordered, `none` if one is not a number. Python compares an integer and a float
-- by their exact values.
abbrev pub float_order : Float → Float → Option Ordering
float_order nan g = none
float_order (infinite a) nan = none
float_order (infinite true) (infinite true) = some Ordering.eq
float_order (infinite true) (infinite false) = some Ordering.lt
float_order (infinite true) (finite m l) = some Ordering.lt
float_order (infinite false) (infinite true) = some Ordering.gt
float_order (infinite false) (infinite false) = some Ordering.eq
float_order (infinite false) (finite m l) = some Ordering.gt
float_order (finite n k) nan = none
float_order (finite n k) (infinite true) = some Ordering.gt
float_order (finite n k) (infinite false) = some Ordering.lt
float_order (finite n k) (finite m l) = some (
    compare_nat (pos_part n * 2 ^ l + neg_part m * 2 ^ k) (pos_part m * 2 ^ k + neg_part n * 2 ^ l))

abbrev pub number_of : Value → Option Float
number_of (bool b) = some (finite (of_bool b) 0)
number_of (num n) = some (finite n 0)
number_of (float f) = some f
number_of _ = none

abbrev pub is_same : Option Ordering → Bool
is_same none = false
is_same (some o) = elim o [ Ordering.eq ↦ true | _ ↦ false ]

-- `f == w`
abbrev pub number_eq : Float → Value → Bool
number_eq f w = elim (number_of w) [ none ↦ false | some g ↦ is_same (float_order f g) ]

abbrev pub size : Fields → ℕ
size end = 0
size (field k v d) = suc (size d)

-- `v == w`. Two dicts are equal if they have as many entries and every entry of one is in the other.
unfoldable mutual
  pub value_eq : Value → Value → Bool
  value_eq null w = elim w [ null ↦ true | _ ↦ false ]
  value_eq (bool b) w = number_eq (finite (of_bool b) 0) w
  value_eq (num n) w = number_eq (finite n 0) w
  value_eq (float f) w = number_eq f w
  value_eq (str s) w = elim w [ str t ↦ s == t | _ ↦ false ]
  value_eq (arr xs) w = elim w [ arr ys ↦ items_eq xs ys | _ ↦ false ]
  value_eq (obj d) w = elim w [ obj e ↦ eqb (size d) (size e) && fields_eq d e | _ ↦ false ]

  pub items_eq : Items → Items → Bool
  items_eq nil ys = elim ys [ nil ↦ true | cons _ _ ↦ false ]
  items_eq (cons x xs) ys = elim ys [ nil ↦ false | cons y r ↦ value_eq x y && items_eq xs r ]

  pub fields_eq : Fields → Fields → Bool
  fields_eq end e = true
  fields_eq (field k v d) e =
      elim (get k e) [ none ↦ false | some w ↦ value_eq v w ] && fields_eq d e

pub data Comparison : Type 0 where
  gt ge lt le : Comparison

-- The comparison, read off how the two sides are ordered.
abbrev pub holds : Comparison → Ordering → Bool
holds gt o = elim o [ Ordering.gt ↦ true | _ ↦ false ]
holds ge o = elim o [ Ordering.lt ↦ false | _ ↦ true ]
holds lt o = elim o [ Ordering.lt ↦ true | _ ↦ false ]
holds le o = elim o [ Ordering.gt ↦ false | _ ↦ true ]

-- Every comparison with what is not a number is false.
abbrev pub holds_among : Comparison → Option Ordering → Bool
holds_among op none = false
holds_among op (some o) = holds op o

-- `f op w`
abbrev pub number_ordered : Comparison → Float → Value → Outcome Bool
number_ordered op f w = elim (number_of w) [
  | none ↦ raise type_error
  | some g ↦ return (holds_among op (float_order f g))
]

-- `v op w`: numbers, texts by code points, lists by their first unequal items.
unfoldable mutual
  pub ordered : Comparison → Value → Value → Outcome Bool
  ordered op null w = raise type_error
  ordered op (bool b) w = number_ordered op (finite (of_bool b) 0) w
  ordered op (num n) w = number_ordered op (finite n 0) w
  ordered op (float f) w = number_ordered op f w
  ordered op (str s) w = elim w [
    | str t ↦ return (holds op (compare_text s t))
    | _ ↦ raise type_error
  ]
  ordered op (arr xs) w = elim w [ arr ys ↦ items_ordered op xs ys | _ ↦ raise type_error ]
  ordered op (obj d) w = raise type_error

  pub items_ordered : Comparison → Items → Items → Outcome Bool
  items_ordered op nil ys =
      return (holds op (elim ys [ nil ↦ Ordering.eq | cons _ _ ↦ Ordering.lt ]))
  items_ordered op (cons x xs) ys = elim ys [
    | nil ↦ return (holds op Ordering.gt)
    | cons y r ↦ elim (value_eq x y) [ true ↦ items_ordered op xs r | false ↦ ordered op x y ]
  ]

-- `v in xs`
unfoldable pub is_item : Value → Items → Bool
is_item v nil = false
is_item v (cons x xs) = value_eq x v || is_item v xs

-- `v in w`: a part of a text, an item of a list, a key of a dict.
unfoldable pub contains : Value → Value → Outcome Bool
unfolding is_item
contains (str s) (str t) = return (is_some (find? t s))
contains v (str t) = raise type_error
contains v (arr xs) = return (is_item v xs)
contains (arr _) (obj d) = raise type_error
contains (obj _) (obj d) = raise type_error
contains (str k) (obj d) = return (is_some (get k d))
contains v (obj d) = return false
contains v _ = raise type_error
