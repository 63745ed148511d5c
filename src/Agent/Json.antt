-- ===== src/Agent/Json.antt =====
-- The decoded `structured_output` that agent/verdict.py is given. The members of an object have
-- distinct names, as those of a `dict` do.
use issuebot.Prelude.{String, List, [], ◌∷◌}
use issuebot.Prelude.Dict.{Dict}

mutual
  -- A decoded JSON value; numbers and the two Booleans are never accepted, so which is not kept.
  pub data Json : Type 0 where
    null scalar : Json
    text : String → Json
    array : Items → Json
    object : Members → Json

  pub data Items : Type 0 where
    no_items : Items
    item : Json → Items → Items

  pub data Members : Type 0 where
    no_members : Members
    member : String → Json → Members → Members

unfoldable pub items_of : Items → List Json
items_of no_items = []
items_of (item j js) = j ∷ items_of js

unfoldable pub members_of : Members → Dict Json
members_of no_members = []
members_of (member k j ms) = (k, j) ∷ members_of ms
