-- ===== src/Json/Melon.antt =====
-- What the json library uses of Melon: its JSON trees and their text, the arrays of a script, and the
-- machine's conversions between integers and doubles. `none` is a refused allocation or a text that
-- is not JSON.
use melang.Base.{ℕ, Bool, Option}
use melang.Script.{Bytes}
use melang.Json.{Datum, Array, Json, Items, Members}

-- The key that mln_lang_array_get is called with: NULL for the next free index.
pub data Slot : Type 0 where
  next : Slot
  at_index : ℕ → Slot
  at_key : Bytes → Slot

pub record Melon : Type 0 where
  pub json_array_init : Option Items
  pub json_array_append : Json → Items → Option Items
  pub json_obj_init : Option Members
  pub json_obj_update : Bytes → Json → Members → Option Members
  pub json_encode : Json → Option Bytes
  pub json_decode : Bytes → Option Json
  pub array_new : Option Array
  pub array_get : Slot → Array → Option Array
  pub value_set : Slot → Datum → Array → Option Array
  pub double_of : ℕ → ℕ
  pub s64_of : ℕ → ℕ
  pub doubles_equal : ℕ → ℕ → Bool
