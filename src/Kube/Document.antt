-- ===== src/Kube/Document.antt =====
-- The parsed YAML document of tunstrap/kube.py, and the operations on its mappings and sequences
-- that the code uses. Documents are trees: a file whose aliases make two places one object is not
-- modelled. A scalar that is no text (a number, a Boolean, a date) is its truth value and its
-- `str`; the keys of a mapping are texts. An object that the code holds on to and mutates is
-- named by its position in the sequence.
pub mod Laws
pub mod Finding
use tunstrap.Common.{
  ℕ, zero, suc, String, Bool, true, false, not, Option, none, some, List, if◌then◌else◌, ◌=t=◌,
}

mutual
  pub data Value : Type 0 where
    null : Value
    scalar : Bool → String → Value
    text : String → Value
    seq : Items → Value
    mapping : Fields → Value

  pub data Items : Type 0 where
    nil : Items
    item : Value → Items → Items

  pub data Fields : Type 0 where
    end : Fields
    field : String → Value → Fields → Fields

-- `d.get(key)`: `None` for a missing key.
unfoldable pub get : String → Fields → Value
get k end = null
get k (field j v f) = if j =t= k then v else get k f

-- `d[key] = value`
unfoldable pub put : String → Value → Fields → Fields
put k v end = field k v end
put k v (field j w f) = if j =t= k then field k v f else field j w (put k v f)

-- `d.pop(key, None)`
unfoldable pub pop : String → Fields → Fields
pop k end = end
pop k (field j w f) = let rest = pop k f in if j =t= k then rest else field j w rest

-- `bool(value)`
abbrev pub truthy : Value → Bool
truthy null = false
truthy (scalar b shown) = b
truthy (text s) = not (s =t= "")
truthy (seq nil) = false
truthy (seq (item v vs)) = true
truthy (mapping end) = false
truthy (mapping (field k v f)) = true

-- `value or []`
unfoldable pub or_empty : Value → Value
or_empty v = if truthy v then v else seq nil

-- `value if isinstance(value, list) else []`
abbrev pub items_of : Value → Items
items_of (seq vs) = vs
items_of _ = nil

-- `value if isinstance(value, dict) else {}`
abbrev pub fields_of : Value → Fields
fields_of (mapping f) = f
fields_of _ = end

-- `value == name` for a text `name`
abbrev pub is_text : String → Value → Bool
is_text name (text s) = s =t= name
is_text name _ = false

abbrev pub one_later : Option (ℕ × Fields) → Option (ℕ × Fields)
one_later none = none
one_later (some (i, e)) = some (suc i, e)

-- The loop of `_find_named`: the first mapping with that name, with its position.
unfoldable pub find_in : Items → String → Option (ℕ × Fields)
find_in nil name = none
find_in (item (mapping e) vs) name =
    if is_text name (get "name" e) then some (zero, e) else one_later (find_in vs name)
find_in (item v vs) name = one_later (find_in vs name)

-- `_find_named`
unfoldable pub find_named : Value → String → Option (ℕ × Fields)
find_named (seq vs) name = find_in vs name
find_named _ name = none

-- An assignment to keys of the mapping at a position of a sequence.
unfoldable pub update_at : ℕ → (Fields → Fields) → Items → Items
update_at i change nil = nil
update_at zero change (item (mapping e) vs) = item (mapping (change e)) vs
update_at zero change (item v vs) = item v vs
update_at (suc i) change (item v vs) = item v (update_at i change vs)

-- The same, of the mapping that a key holds.
unfoldable pub update_inner : String → (Fields → Fields) → Fields → Fields
update_inner k change f = put k (mapping (change (fields_of (get k f)))) f

-- The same, of the sequence that a key holds.
unfoldable pub update_list : String → (Items → Items) → Fields → Fields
update_list k change f = put k (seq (change (items_of (get k f)))) f
