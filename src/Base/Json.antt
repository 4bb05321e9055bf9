-- ===== src/Base/Json.antt =====
-- JSON values as `json.loads` returns them, and the dictionary operations on objects.
use Prim.Native.Nat.{ℕ}
use Prim.Native.String.{String}
use mathlib.Core.Path.{◌≡◌, refl}
use mathlib.Core.Bool.{Bool, true, false, not}
use mathlib.Core.Option.{Option, none, some}
use native.Mathlib.Omega.{arith}
use text.Mathlib.TextEquality.{eq_iff}
use peer_chat.Base.Tests.{◌==◌, nat_eq, if◌then◌else◌}
use peer_chat.Base.Int.{ℤ, pos, negsuc}

-- `real` is a float; the program stores only time stamps as floats, which are counted in ticks of
-- its clock.
mutual
  pub data Value : Type 0 where
    null : Value
    bool : Bool → Value
    int : ℤ → Value
    real : ℕ → Value
    str : String → Value
    arr : Items → Value
    obj : Fields → Value

  pub data Fields : Type 0 where
    end : Fields
    field : String → Value → Fields → Fields

  pub data Items : Type 0 where
    no_items : Items
    item : Value → Items → Items

-- `d.get(k)`, with `none` for a missing key.
unfoldable pub lookup : String → Fields → Option Value
lookup k end = none
lookup k (field j v d) = if j == k then some v else lookup k d

-- `d[k] = v`
unfoldable pub insert : String → Value → Fields → Fields
insert k v end = field k v end
insert k v (field j w d) = if j == k then field k v d else field j w (insert k v d)

pub lookup-insert :
    (k j : String) (v : Value) (d : Fields)
    → lookup j (insert k v d) ≡ (if k == j then some v else lookup j d)
unfolding lookup insert
lookup-insert k j v end = refl
lookup-insert k j v (field i w d) =
    ground (arith, eq_iff k j, eq_iff i k, eq_iff i j, lookup-insert k j v d)

pub lookup-insert_ne :
    (k j : String) (v : Value) (d : Fields)
    → (k == j) ≡ false
    → lookup j (insert k v d) ≡ lookup j d
lookup-insert_ne k j v d h = rw (lookup-insert k j v d, h)

-- Writing what is there already changes nothing.
pub insert_same : (k : String) (v : Value) (d : Fields) → lookup k d ≡ some v → insert k v d ≡ d
unfolding lookup insert
insert_same k v end h = cc
insert_same k v (field j w d) h = ground (arith, eq_iff j k, insert_same k v d)

-- What `x.get(k)` is on a dictionary; on any other value there is nothing to get.
unfoldable pub member : Value → String → Value
unfolding lookup
member (obj d) k = elim (lookup k d) [ none ↦ null | some v ↦ v ]
member _ k = null

pub member-insert :
    (k j : String) (v : Value) (d : Fields)
    → member (obj (insert k v d)) j ≡ (if k == j then v else member (obj d) j)
unfolding member
member-insert k j v d = ground (arith, lookup-insert k j v d)

pub member-insert_ne :
    (k j : String) (v : Value) (d : Fields)
    → (k == j) ≡ false
    → member (obj (insert k v d)) j ≡ member (obj d) j
member-insert_ne k j v d h = rw (member-insert k j v d, h)

pub member-lookup :
    (k : String) (v : Value) (d : Fields) → lookup k d ≡ some v → member (obj d) k ≡ v
unfolding member
member-lookup k v d h = rw (h, member)

abbrev pub is_text : Value → String → Bool
is_text (str s) t = s == t
is_text _ t = false

abbrev pub is_str : Value → Bool
is_str (str s) = true
is_str _ = false

abbrev pub is_obj : Value → Bool
is_obj (obj d) = true
is_obj _ = false

abbrev pub is_null : Value → Bool
is_null null = true
is_null _ = false

-- `bool(x)`: what `if x` and `x or y` test.
abbrev pub truthy : Value → Bool
truthy null = false
truthy (bool b) = b
truthy (int (pos n)) = not (nat_eq n 0)
truthy (int (negsuc n)) = true
truthy (real n) = not (nat_eq n 0)
truthy (str s) = not (s == "")
truthy (arr no_items) = false
truthy (arr (item _ _)) = true
truthy (obj end) = false
truthy (obj (field _ _ _)) = true

-- `x or y`
abbrev pub or_else : Value → Value → Value
or_else x y = if truthy x then x else y
