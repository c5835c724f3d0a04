-- ===== src/Fleet.antt =====
-- What the database means to a client: the devices by their ids, each with its group, attributes and
-- shadow, without rows, order or stored text. The operations are on this view.
pub mod Refinement
use mathlib.Core.Option
use embediq_cloud.Prelude.{String, ◌==◌, Bool, Option, none, some, [], ◌∷◌, if◌then◌else◌}
use embediq_cloud.Json.{Value, Object, object, update, Codec}
use embediq_cloud.Json.Dict.{dict_of}
use embediq_cloud.Db.{Db, Device, DeviceShadow, find_device, find_shadow}

-- A device: `none` stands for a document that cannot be read.
pub record Card : Type 0 where
  pub group : String
  pub attributes : Option Value
  pub shadow : Option (Object × Object)

abbrev pub Fleet : Type 0
Fleet = String → Option Card

module _ (C : Codec) where
  -- the abstract shadow of a row: its two dicts, if both columns hold one
  abbrev pub row_shadow : Option (DeviceShadow C.Text) → Option (Object × Object)
  row_shadow none = some ([], [])
  row_shadow (some row) = elim (dict_of C row.desired) [
    | none ↦ none
    | some d ↦ elim (dict_of C row.reported) [ none ↦ none | some r ↦ some (d, r) ]
  ]

  abbrev pub shadow_of : String → Db C.Text → Option (Object × Object)
  shadow_of k db = row_shadow (find_shadow k db)

  abbrev pub card_of : Option (Device C.Text) → Option (DeviceShadow C.Text) → Option Card
  card_of none s = none
  card_of (some d) s =
      some (record { group = d.group_id; attributes = C.loads d.attributes; shadow = row_shadow s })

  abbrev pub fleet : Db C.Text → Fleet
  fleet db k = card_of (find_device k db) (find_shadow k db)

-- the operations of the specification
abbrev pub enrolled : String → Card → Fleet → Fleet
enrolled k card f j = if k == j then some card else f j

abbrev pub removed : String → Fleet → Fleet
removed k f j = if k == j then none else f j

abbrev pub changed : String → (Card → Card) → Fleet → Fleet
changed k g f j = if k == j then Option.map g (f j) else f j

abbrev pub changed_all : (Card → Card) → Fleet → Fleet
changed_all g f j = Option.map g (f j)

-- what a PATCH names: a field that is absent or null stays
abbrev pub regrouped : Option (Option String) → Card → Card
regrouped (some (some g)) card = record card { group = g }
regrouped _ card = card

abbrev pub attributed : Option (Option Object) → Card → Card
attributed (some (some a)) card = record card { attributes = some (object a) }
attributed _ card = card

-- the devices of a group move to "default"
abbrev pub ungrouped : String → Card → Card
ungrouped g card = if card.group == g then record card { group = "default" } else card

-- a patch of the desired state
abbrev pub desired : Object → Card → Card
desired delta card = record card {
  shadow = Option.map (λ both. (update both.0 delta, both.1)) card.shadow;
}

-- a report of the device's state
abbrev pub reported : Object → Card → Card
reported payload card = record card { shadow = Option.map (λ both. (both.0, payload)) card.shadow }
