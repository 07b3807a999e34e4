-- ===== src/Prelude/Json.antt =====
-- JSON values as code reads them after JSON.parse: the items of an array are never read, a number is
-- natural, and the members of an object have different names.
use Prim.Native.Nat.{ℕ}
use Prim.Native.String.{String}
use mathlib.Core.Bool.{Bool, true, false}
use mathlib.Core.Option.{Option, none, some}
use text.Mathlib.Text.{◌==◌ as str_eq}
use druvia.Prelude.Tests.{if◌then◌else◌}

mutual
  pub data Json : Type 0 where
    null : Json
    boolean : Bool → Json
    number : ℕ → Json
    string : String → Json
    array : Json
    object : Members → Json

  pub data Members : Type 0 where
    end : Members
    member : String → Json → Members → Members

unfoldable pub lookup_member : String → Members → Option Json
lookup_member key end = none
lookup_member key (member name value rest) =
    let found = lookup_member key rest in if str_eq name key then some value else found

-- `value.key`; nothing is `undefined`.
unfoldable pub property : String → Json → Option Json
unfolding lookup_member
property key (object members) = lookup_member key members
property key _ = none

-- typeof value === 'object' && value !== null
unfoldable pub is_record : Json → Bool
is_record array = true
is_record (object members) = true
is_record _ = false

unfoldable pub as_record : Option Json → Option Json
unfolding is_record
as_record none = none
as_record (some value) = if is_record value then some value else none

unfoldable pub as_text : Option Json → Option String
as_text (some (string s)) = some s
as_text _ = none

unfoldable pub as_number : Option Json → Option ℕ
as_number (some (number n)) = some n
as_number _ = none

unfoldable pub as_boolean : Option Json → Option Bool
as_boolean (some (boolean b)) = some b
as_boolean _ = none
