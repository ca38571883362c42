-- ===== src/Json.antt =====
-- JSON values, as `json.loads` builds them and as metadata mappings hold them. The members of an
-- object are a Python dict: no key twice.
use datasluice.Base.{ℤ, String, Bool, ◌==◌, equatable_string, if◌then◌else◌}

mutual
  pub data Json : Type 0 where
    null : Json
    bool : Bool → Json
    int : ℤ → Json
    -- a number with a fraction, by its text
    float : String → Json
    text : String → Json
    array : Items → Json
    object : Members → Json

  pub data Items : Type 0 where
    nil : Items
    cons : Json → Items → Items

  pub data Members : Type 0 where
    end : Members
    member : String → Json → Members → Members

-- `{**members, key: value}`
unfoldable pub put_member : String → Json → Members → Members
put_member key value end = member key value end
put_member key value (member k v rest) =
    if k == key then member key value rest else member k v (put_member key value rest)
