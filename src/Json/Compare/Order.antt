-- ===== src/Json/Compare/Order.antt =====
-- `>=` is the negation of `<`, and `<=` of `>`, with the same exceptions, on values without NaN.
use Prim.Native.Nat.{Ordering}
use constructor.Prelude.{◌≡◌, refl, ap, not, some, true, false, arith}
use constructor.Json.{
  Float, nan, infinite, finite, Value, Items, null, bool, num, float, str, arr, obj, nil, cons,
}
use constructor.Json.Compare.{
  Comparison, gt, ge, lt, le, of_bool, holds, holds_among, float_order, number_ordered, ordered,
  items_ordered,
}
use constructor.Outcome.{map_return, return}

abbrev pub opposite : Comparison → Comparison
opposite gt = le
opposite le = gt
opposite ge = lt
opposite lt = ge

abbrev pub IsNumber : Float → Type 0
IsNumber nan = ⊥
IsNumber (infinite a) = Unit
IsNumber (finite n k) = Unit

-- No NaN is the value, or an item of the list, at any depth.
abbrev mutual
  pub HasNoNan : Value → Type 0
  HasNoNan (float f) = IsNumber f
  HasNoNan (arr xs) = HaveNoNan xs
  HasNoNan _ = Unit

  pub HaveNoNan : Items → Type 0
  HaveNoNan nil = Unit
  HaveNoNan (cons x xs) = HasNoNan x × HaveNoNan xs

holds-opposite : (op : Comparison) (o : Ordering) → holds (opposite op) o ≡ not (holds op o)
holds-opposite op o = ground arith

float_order-some :
    (f g : Float) → IsNumber f → IsNumber g → (o : Ordering) × (float_order f g ≡ some o)
float_order-some nan g a b = absurd a
float_order-some (infinite x) nan a b = absurd b
float_order-some (infinite true) (infinite true) a b = (_, refl)
float_order-some (infinite true) (infinite false) a b = (_, refl)
float_order-some (infinite true) (finite m l) a b = (_, refl)
float_order-some (infinite false) (infinite true) a b = (_, refl)
float_order-some (infinite false) (infinite false) a b = (_, refl)
float_order-some (infinite false) (finite m l) a b = (_, refl)
float_order-some (finite n k) nan a b = absurd b
float_order-some (finite n k) (infinite true) a b = (_, refl)
float_order-some (finite n k) (infinite false) a b = (_, refl)
float_order-some (finite n k) (finite m l) a b = (_, refl)

opposite_floats :
    (op : Comparison) (f g : Float)
    → IsNumber f
    → IsNumber g
    → holds_among (opposite op) (float_order f g) ≡ not (holds_among op (float_order f g))
opposite_floats op f g a b =
    let (o, same) = float_order-some f g a b in rw same (holds-opposite op o)

opposite_number :
    (op : Comparison) (f : Float) (w : Value)
    → IsNumber f
    → HasNoNan w
    → number_ordered (opposite op) f w ≡ map_return not (number_ordered op f w)
opposite_number op f (bool b) a c = ap return (opposite_floats op f (finite (of_bool b) 0) a tt)
opposite_number op f (num n) a c = ap return (opposite_floats op f (finite n 0) a tt)
opposite_number op f (float g) a c = ap return (opposite_floats op f g a c)
opposite_number op f _ a c = refl

mutual
  unfolding ordered

  opposite_value :
      (v w : Value) (op : Comparison)
      → HasNoNan v
      → HasNoNan w
      → ordered (opposite op) v w ≡ map_return not (ordered op v w)
  opposite_value null w op a c = refl
  opposite_value (bool b) w op a c = opposite_number op (finite (of_bool b) 0) w tt c
  opposite_value (num n) w op a c = opposite_number op (finite n 0) w tt c
  opposite_value (float f) w op a c = opposite_number op f w a c
  opposite_value (str s) w op a c = ground arith
  opposite_value (arr xs) (arr ys) op a c = opposite_items xs ys op a c
  opposite_value (arr xs) _ op a c = refl
  opposite_value (obj d) w op a c = refl

  opposite_items :
      (xs ys : Items) (op : Comparison)
      → HaveNoNan xs
      → HaveNoNan ys
      → items_ordered (opposite op) xs ys ≡ map_return not (items_ordered op xs ys)
  opposite_items nil ys op a c = ground arith
  opposite_items (cons x xs) nil op a c = ground arith
  opposite_items (cons x xs) (cons y ys) op (a, rest) (c, others) =
      ground (arith, opposite_items xs ys op rest others, opposite_value x y op a c)

-- The opposite comparison of two values has the negated answer, and the same exception.
pub ordered-opposite :
    (op : Comparison) (v w : Value)
    → HasNoNan v
    → HasNoNan w
    → ordered (opposite op) v w ≡ map_return not (ordered op v w)
ordered-opposite op v w a c = opposite_value v w op a c
