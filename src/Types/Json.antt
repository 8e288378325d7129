-- ===== src/Types/Json.antt =====
-- The JSON values that the program builds: `serde_json::Value`, an object's members in order.
use kinetic_atlas.Base.{ℕ, Bool}
use kinetic_atlas.Text.{Str}

mutual
  pub data Json : Type 0 where
    null : Json
    bool : Bool → Json
    num : ℕ → Json
    text : Str → Json
    obj : Members → Json

  pub data Members : Type 0 where
    end : Members
    member : Str → Json → Members → Members
