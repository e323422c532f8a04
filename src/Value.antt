-- ===== src/Value.antt =====
-- The values of facts: what the program handles as `any`, with a constructor for each dynamic type
-- that it tells apart. A Go map is an association list, in the order of one iteration over it.
pub mod Laws
use facts.Base.{
  ℕ, zero, suc, ◌+◌, Bool, true, false, List, [], ◌∷◌, Option, none, some, if◌then◌else◌,
}
use facts.Base.Int.{ℤ}
use facts.Base.Text.{Text, text_eq}

-- A key of a `map[any]any`: a string, or a value of another type with its `fmt.Sprint`.
pub data AnyKey : Type 0 where
  str_key : Text → AnyKey
  other_key : ℕ → Text → AnyKey

mutual
  pub data Value : Type 0 where
    null : Value
    str : Text → Value
    int : ℤ → Value
    float : ℕ → Value
    bool : Bool → Value
    arr : Items → Value
    strs : List Text → Value
    ints : List ℤ → Value
    obj : Fields → Value
    any_map : Entries → Value
    other : ℕ → Value

  -- `[]any`
  pub data Items : Type 0 where
    nil : Items
    cons : Value → Items → Items

  -- `map[string]any`
  pub data Fields : Type 0 where
    end : Fields
    field : Text → Value → Fields → Fields

  -- `map[any]any`
  pub data Entries : Type 0 where
    done : Entries
    entry : AnyKey → Value → Entries → Entries

unfoldable pub item_at : Items → ℕ → Option Value
item_at nil i = none
item_at (cons v vs) zero = some v
item_at (cons v vs) (suc i) = item_at vs i

-- `m[k]`
unfoldable pub lookup : Text → Fields → Option Value
lookup k end = none
lookup k (field j v m) = if text_eq j k then some v else lookup k m

-- `m[k] = v`
unfoldable pub put : Text → Value → Fields → Fields
put k v end = field k v end
put k v (field j w m) = let rest = put k v m in if text_eq j k then field j v m else field j w rest

-- `delete(m, k)`
unfoldable pub remove : Text → Fields → Fields
remove k end = end
remove k (field j w m) = let rest = remove k m in if text_eq j k then rest else field j w rest

abbrev pub keys : Fields → List Text
keys end = []
keys (field k v m) = k ∷ keys m

abbrev pub is_obj : Value → Bool
is_obj (obj m) = true
is_obj _ = false

abbrev pub is_null : Value → Bool
is_null null = true
is_null _ = false
