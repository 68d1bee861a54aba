-- ===== src/Owner/Tests.antt =====
-- The theorems of the owned names on `local.` and `_tcp.local`.
use hick.Prelude.{ℕ, ◌≡◌, refl, true, List, [], ◌∷◌, map, ok}
use hick.Wire.Error.{Parsed}
use hick.Owner.{
  Name, trim, split, split_once, wire_length, validate_name, eq_ignore_ascii_case, is_parent_of,
  has_dot, push_labels, from_wire_labels,
}
use hick.Owner.Text.{lower}
use hick.Owner.Labels.{name_labels, IsName}
use hick.Owner.FromWire.{from_wire_labels-labels}

abbrev parent : Name
parent = record { text = b'l' ∷ b'o' ∷ b'c' ∷ b'a' ∷ b'l' ∷ b'.' ∷ [] }

abbrev child : Name
child = record { text = b'_' ∷ b't' ∷ b'c' ∷ b'p' ∷ b'.' ∷ b'l' ∷ b'o' ∷ b'c' ∷ b'a' ∷ b'l' ∷ [] }

parent-IsName : IsName parent
unfolding validate_name trim split wire_length
parent-IsName = record { valid = refl; folded = refl }

child-IsName : IsName child
unfolding validate_name trim split wire_length
child-IsName = record { valid = refl; folded = refl }

is_parent : is_parent_of parent child ≡ true
unfolding is_parent_of trim split_once eq_ignore_ascii_case
is_parent = refl

-- The name on the wire, in capitals.
abbrev capitals : List ℕ
capitals = b'L' ∷ b'O' ∷ b'C' ∷ b'A' ∷ b'L' ∷ []

abbrev spelled : List (Parsed (List ℕ))
spelled = ok capitals ∷ []

from_wire_labels-labels_example :
    IsName parent
    × ((ls : List (List ℕ)) × (spelled ≡ map ok ls) × (name_labels parent ≡ map lower ls))
unfolding from_wire_labels push_labels has_dot validate_name trim split wire_length
from_wire_labels-labels_example = from_wire_labels-labels (λ _. true) spelled parent refl
