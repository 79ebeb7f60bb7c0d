-- ===== src/Common/Json.antt =====
-- Values of serde_json. The bindings of an object are in the order of their keys, as in its B-tree map; a
-- number that is no integer is not looked into, and is kept as its text.
use Prim.Native.Nat.{ℕ}
use mathlib.Core.Path.{◌≡◌, refl, ◌∙◌}
use mathlib.Core.Bool.{Bool, true, false, ◌&&◌}
use mathlib.Core.Option.{Option, none, some}
use mathlib.Core.List.{List, [], ◌∷◌}
use native.Mathlib.Omega.{arith}
use ghal_bol.Common.Tests.{ltb, if◌then◌else◌}
use ghal_bol.Common.Texts.{Text, text_eq, text_eq_iff, text_lt}
use ghal_bol.Common.Int.{ℤ, pos, negsuc}

mutual
  pub data Json : Type 0 where
    null : Json
    boolean : Bool → Json
    number : ℤ → Json
    real : Text → Json
    string : Text → Json
    array : Items → Json
    object : Fields → Json

  pub data Items : Type 0 where
    nil : Items
    cons : Json → Items → Items

  pub data Fields : Type 0 where
    end : Fields
    field : Text → Json → Fields → Fields

abbrev pub as_str : Json → Option Text
as_str (string s) = some s
as_str _ = none

abbrev pub as_bool : Json → Option Bool
as_bool (boolean b) = some b
as_bool _ = none

abbrev pub as_i64 : Json → Option ℤ
as_i64 (number (pos n)) = if ltb n 9223372036854775808 then some (pos n) else none
as_i64 (number (negsuc n)) = some (negsuc n)
as_i64 _ = none

abbrev pub as_u64 : Json → Option ℕ
as_u64 (number (pos n)) = some n
as_u64 _ = none

abbrev pub as_array : Json → Option Items
as_array (array xs) = some xs
as_array _ = none

abbrev pub as_object : Json → Option Fields
as_object (object fs) = some fs
as_object _ = none

unfoldable pub get : Text → Fields → Option Json
get k end = none
get k (field j v m) = if text_eq j k then some v else get k m

unfoldable pub insert : Text → Json → Fields → Fields
insert k v end = field k v end
insert k v (field j w m) =
    if text_eq j k
    then field k v m
    else if text_lt k j
    then field k v (field j w m)
    else field j w (insert k v m)

pub get-insert :
    (k j : Text) (v : Json) (m : Fields)
    → get j (insert k v m) ≡ (if text_eq k j then some v else get j m)
unfolding get insert
get-insert k j v end = refl
get-insert k j v (field i w m) =
    ground (arith, text_eq_iff k j, text_eq_iff i k, text_eq_iff i j, get-insert k j v m)

pub get-insert_self : (k : Text) (v : Json) (m : Fields) → get k (insert k v m) ≡ some v
get-insert_self k v m = get-insert k k v m ∙ rw ((text_eq_iff k k).1 refl) refl

pub get-first : (k : Text) (v : Json) (m : Fields) → get k (field k v m) ≡ some v
unfolding get
get-first k v m = rw ((text_eq_iff k k).1 refl) refl

-- `if let Some(v) = &o { m[k] = v }`.
abbrev pub put_some : Text → Option Json → Fields → Fields
put_some k none m = m
put_some k (some v) m = insert k v m

pub get-put_some :
    (k j : Text) (o : Option Json) (m : Fields)
    → get j (put_some k o m)
      ≡ (if text_eq k j then (elim o [ none ↦ get j m | some v ↦ some v ]) else get j m)
get-put_some k j none m = ground arith
get-put_some k j (some v) m = get-insert k j v m

-- `*m.get_mut(k) = v`, of a key that is there.
unfoldable pub set_at : Text → Json → Fields → Fields
set_at k v end = end
set_at k v (field j w m) = if text_eq j k then field j v m else field j w (set_at k v m)

abbrev pub is_bound : Option Json → Bool
is_bound none = false
is_bound (some _) = true

pub get-set_at :
    (k j : Text) (v : Json) (m : Fields)
    → get j (set_at k v m) ≡ (if text_eq k j && is_bound (get k m) then some v else get j m)
unfolding get set_at
get-set_at k j v end = ground arith
get-set_at k j v (field i w m) =
    ground (arith, text_eq_iff k j, text_eq_iff i k, text_eq_iff i j, get-set_at k j v m)

pub get-set_at_self :
    (k : Text) (v w : Json) (m : Fields) → get k m ≡ some w → get k (set_at k v m) ≡ some v
get-set_at_self k v w m e = get-set_at k k v m ∙ rw e (rw ((text_eq_iff k k).1 refl) refl)

abbrev pub items : Items → List Json
items nil = []
items (cons x xs) = x ∷ items xs

abbrev pub from_items : List Json → Items
from_items [] = nil
from_items (x ∷ xs) = cons x (from_items xs)

pub items-from_items : (xs : List Json) → items (from_items xs) ≡ xs
items-from_items [] = refl
items-from_items (x ∷ xs) = rw (items-from_items xs)
