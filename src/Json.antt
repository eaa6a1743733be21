-- ===== src/Json.antt =====
-- Values that `response.json()` and a decoded token hold: the dynamic types that the code tests
-- by `isinstance`. A number is kept as its text, since no code computes with one.
use Prim.Native.String.{String}
use mathlib.Core.Bool.{Bool}
use mathlib.Core.Option.{Option, none, some}
use mathlib.Core.List.{List, [], ◌∷◌}
use fukawa.Prelude.Dict.{Dict, lookup}

mutual
  pub data Json : Type 0 where
    null : Json
    boolean : Bool → Json
    number : String → Json
    str : String → Json
    arr : Items → Json
    obj : Fields → Json

  pub data Items : Type 0 where
    nil : Items
    cons : Json → Items → Items

  pub data Fields : Type 0 where
    end : Fields
    field : String → Json → Fields → Fields

abbrev pub items : Items → List Json
items nil = []
items (cons v vs) = v ∷ items vs

-- the `dict` of an object
abbrev pub dict : Fields → Dict Json
dict end = []
dict (field k v fs) = (k, v) ∷ dict fs

-- fields.get(name)
abbrev pub get : String → Fields → Option Json
get name fs = lookup name (dict fs)

-- `isinstance(value, str)` on a value that may be missing: a missing one is `None`
abbrev pub as_str : Option Json → Option String
as_str (some (str s)) = some s
as_str _ = none

-- [x for x in values if isinstance(x, str)]
abbrev pub texts : Items → List String
texts nil = []
texts (cons (str s) vs) = s ∷ texts vs
texts (cons _ vs) = texts vs
