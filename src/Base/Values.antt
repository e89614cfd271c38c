-- ===== src/Base/Values.antt =====
-- The values of a `dict[str, object]`. A dictionary is the list of its items in insertion order.
use Prim.Native.Nat.{ℕ}
use Prim.Native.String.{String}
use mathlib.Core.Path.{◌≡◌, refl}
use mathlib.Core.Bool.{Bool}
use mathlib.Core.Option.{Option, none, some}
use native.Mathlib.Omega.{arith}
use text.Mathlib.TextEquality.{eq_iff}
use super_agent_platform.Base.Tests.{◌==◌, if◌then◌else◌, String_eq}

mutual
  -- `num` is an `int` or `float` that is not negative, as the program's budgets and confidences are
  -- (a float by its value times 1000); `uuid` a `UUID` object, by a number that stands for it;
  -- `other` any object that the program only passes on.
  pub data Value : Type 0 where
    null : Value
    bool : Bool → Value
    num : ℕ → Value
    str : String → Value
    uuid : ℕ → Value
    dict : Fields → Value
    other : ℕ → Value

  pub data Fields : Type 0 where
    end : Fields
    field : String → Value → Fields → Fields

-- `d.get(k)`, with `none` for a missing key.
unfoldable pub get : String → Fields → Option Value
get k end = none
get k (field j v d) = if j == k then some v else get k d

-- `d[k] = v`: in place where the key is there, else at the end.
unfoldable pub put : String → Value → Fields → Fields
put k v end = field k v end
put k v (field j w d) = if j == k then field j v d else field j w (put k v d)

-- `d.update(e)`
unfoldable pub merge : Fields → Fields → Fields
unfolding put
merge d end = d
merge d (field k v e) = merge (put k v d) e

pub get-put :
    (k j : String) (v : Value) (d : Fields)
    → get j (put k v d) ≡ (if k == j then some v else get j d)
unfolding get put
get-put k j v end = refl
get-put k j v (field i w d) = ground (arith, eq_iff k j, eq_iff i k, eq_iff i j, get-put k j v d)
