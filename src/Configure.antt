-- ===== src/Configure.antt =====
-- core/include/configure.h. The values that core/include/json/json.h loads are a parameter.
use conv_event.Base.{◌≡◌, Bool, true, not, Option, none, some, Bytes, if◌then◌else◌, ℤ}

-- `type == JSON_NULL`, and what the casts of a value give.
pub record JsonVal : Type 0 where
  pub is_null : Bool
  pub as_int32 : ℤ
  pub as_short : ℤ
  pub as_bool : Bool
  pub as_text : Bytes

-- `null_val` is `json_val(nullptr)`.
pub record Json : Type 0 where
  pub has_key : Bytes → Bool
  pub value : Bytes → JsonVal
  pub null_val : JsonVal

-- What json.h says of `json_val(nullptr)`.
abbrev pub HasNull : Json → Type 0
HasNull conf = conf.null_val.is_null ≡ true

-- It throws where the key is missing.
unfoldable pub require : Json → Bytes → Option JsonVal
require conf key = if conf.has_key key then some (conf.value key) else none

-- `operator[]`
unfoldable pub index : Json → Bytes → JsonVal
index conf key = if conf.has_key key then conf.value key else conf.null_val

-- `conf[key].type != JSON_NULL`
unfoldable pub given : Json → Bytes → Bool
unfolding index
given conf key = not (index conf key).is_null

-- `conf[key].type == JSON_NULL ? fallback : (int32_t)conf[key]`
unfoldable pub int_or : Json → Bytes → ℤ → ℤ
unfolding given index
int_or conf key fallback = if given conf key then (index conf key).as_int32 else fallback

-- `if(conf[key].type != JSON_NULL) member = conf[key];`
unfoldable pub bool_or : Json → Bytes → Bool → Bool
unfolding given index
bool_or conf key member = if given conf key then (index conf key).as_bool else member
