-- ===== src/Evidence/Json.antt =====
-- The values of an event's payload: what `json.dumps` writes and `json.loads` reads back.
use computer_use_automation.Base.{
  ℕ, String, Bool, true, false, not, Option, none, some, ◌==◌, nat_eq, if◌then◌else◌,
}

mutual
  pub data Json : Type 0 where
    null : Json
    bool : Bool → Json
    num : ℕ → Json
    str : String → Json
    arr : Items → Json
    obj : Fields → Json

  pub data Items : Type 0 where
    nil : Items
    cons : Json → Items → Items

  pub data Fields : Type 0 where
    end : Fields
    field : String → Json → Fields → Fields

-- `data.get(key)`
unfoldable pub get : String → Fields → Option Json
get k end = none
get k (field j v fs) = if j == k then some v else get k fs

-- `bool(value)`
unfoldable pub truthy : Option Json → Bool
truthy none = false
truthy (some null) = false
truthy (some (bool b)) = b
truthy (some (num n)) = not (nat_eq n 0)
truthy (some (str s)) = not (s == "")
truthy (some (arr nil)) = false
truthy (some (arr (cons v vs))) = true
truthy (some (obj end)) = false
truthy (some (obj (field k v fs))) = true

-- Equality of the values that a set may hold. A list or a dictionary is not hashable, and no
-- decision id is one.
same_value : Json → Json → Bool
same_value null null = true
same_value (bool true) (bool true) = true
same_value (bool false) (bool false) = true
same_value (num a) (num b) = nat_eq a b
same_value (str a) (str b) = a == b
same_value _ _ = false

unfoldable pub same : Option Json → Option Json → Bool
unfolding same_value
same none none = true
same (some a) (some b) = same_value a b
same _ _ = false
