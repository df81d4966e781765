-- ===== src/Prelude/Json.antt =====
-- Values that `json.loads` returns. A number is kept as its text: the program only asks whether a
-- value is a number. An object's fields are those of the resulting dict, one for each key.

use envoy_modsecurity.Prelude.Equality.{nat_eq, list_eq}
use envoy_modsecurity.Prelude.Dicts.{Dict}
use envoy_modsecurity.Prelude.Text.{Str}
use mathlib.Core.Bool.{Bool}
use mathlib.Core.List.{[], ◌∷◌}

mutual
  pub data Json : Type 0 where
    null : Json
    boolean : Bool → Json
    number : Str → Json
    text : Str → Json
    array : Items → Json
    object : Fields → Json

  pub data Items : Type 0 where
    nil : Items
    cons : Json → Items → Items

  pub data Fields : Type 0 where
    end : Fields
    field : Str → Json → Fields → Fields

-- `d.items()`
abbrev pub items : Fields → Dict Str Json
items end = []
items (field k v fs) = (k, v) ∷ items fs
