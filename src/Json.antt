-- ===== src/Json.antt =====
-- Values of Go's type `any` as encoding/json decodes them: what the App Server sends as usage and
-- rate limits (agent/internal/model/model.go, `map[string]any`). A number keeps its literal.
use codex_ha_monitor.Prelude.{String, Bool, List, [], ◌∷◌, Option, ◌≡◌, refl, ap}

mutual
  pub data Json : Type 0 where
    null : Json
    bool : Bool → Json
    number : String → Json
    text : String → Json
    array : Items → Json
    object : Members → Json

  pub data Items : Type 0 where
    end : Items
    item : Json → Items → Items

  pub data Members : Type 0 where
    stop : Members
    member : String → Json → Members → Members

-- A decoded JSON object, `map[string]any`; the nil map is `none`.
abbrev pub JsonMap : Type 0
JsonMap = Option (List (String × Json))

-- A `[]any` value and the list of its elements.
unfoldable pub to_list : Items → List Json
to_list end = []
to_list (item j js) = j ∷ to_list js

pub from_list : List Json → Items
from_list [] = end
from_list (j ∷ js) = item j (from_list js)

pub to_list-from_list : (js : List Json) → to_list (from_list js) ≡ js
unfolding to_list from_list
to_list-from_list [] = refl
to_list-from_list (j ∷ js) = ap (◌∷◌ j) (to_list-from_list js)
