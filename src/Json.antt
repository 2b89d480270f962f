-- ===== src/Json.antt =====
-- JSON values as Python holds them: the configurations and contexts of a workflow, and the payloads
-- of messages (`dict`, `list`, `str`, `int`, `float`, `bool` and `None`). A value is read and written
-- as a whole: objects that share a part are not distinguished from objects that hold equal copies of
-- it.
pub mod Compare
use constructor.Prelude.{
  ℕ, String, ◌≡◌, refl, Bool, true, false, not, Option, none, some, arith, ◌==◌, eq_iff,
  if◌then◌else◌,
}
use constructor.Prelude.Int.{ℤ, pos}

-- A Python `float`: every finite one is an integer over a power of two. The infinity is the negative
-- one for `true`.
pub data Float : Type 0 where
  nan : Float
  infinite : Bool → Float
  finite : ℤ → ℕ → Float

mutual
  pub data Value : Type 0 where
    null : Value
    bool : Bool → Value
    num : ℤ → Value
    float : Float → Value
    str : String → Value
    arr : Items → Value
    obj : Fields → Value

  -- The entries of a `dict`, in insertion order.
  pub data Fields : Type 0 where
    end : Fields
    field : String → Value → Fields → Fields

  pub data Items : Type 0 where
    nil : Items
    cons : Value → Items → Items

-- `d.get(k)`, with `none` for a missing key.
unfoldable pub get : String → Fields → Option Value
get k end = none
get k (field j v d) = if j == k then some v else get k d

-- `d[k] = v`: an old key keeps its place. `{**d, k: v}` is this on a copy of `d`.
unfoldable pub put : String → Value → Fields → Fields
put k v end = field k v end
put k v (field j w d) = if j == k then field j v d else field j w (put k v d)

pub get-put :
    (k j : String) (v : Value) (d : Fields)
    → get j (put k v d) ≡ (if k == j then some v else get j d)
unfolding get put
get-put k j v end = refl
get-put k j v (field i w d) = ground (arith, eq_iff k j, eq_iff i k, eq_iff i j, get-put k j v d)

-- Python's truth value of a JSON value.
unfoldable pub is_true : Value → Bool
is_true null = false
is_true (bool b) = b
is_true (num (pos Prim.Native.Nat.zero)) = false
is_true (num _) = true
is_true (float (finite (pos Prim.Native.Nat.zero) k)) = false
is_true (float _) = true
is_true (str s) = not (s == "")
is_true (arr nil) = false
is_true (arr (cons _ _)) = true
is_true (obj end) = false
is_true (obj (field _ _ _)) = true
