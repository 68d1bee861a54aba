-- ===== src/Service/Proposal.antt =====
-- mdns-proto/src/service/proposal.rs: the comparison of two proposals for one name.
use hick.Prelude.{
  ℕ, zero, suc, ◌+◌, Bool, true, false, List, [], ◌∷◌, ◌++◌, map, Option, none, some, Ordering,
  less, equal, greater, is_greater, cmp_nat, cmp_lists, sort, length, take, ltb, if◌then◌else◌, min,
  saturating_add, to_ascii_lowercase,
}
use hick.Owner.{trim, split, is_empty}
pub mod Fold
pub mod Verdict

-- The order of `Vec<u8>`.
abbrev pub cmp_bytes : List ℕ → List ℕ → Ordering
cmp_bytes = cmp_lists cmp_nat

pub record ProposalFold : Type 0 where
  pub smallest : List (List ℕ)
  pub count : ℕ
  pub keep : ℕ

unfoldable pub fold_new : ℕ → ProposalFold
fold_new keep = record { smallest = []; count = 0; keep = keep }

-- `smallest.partition_point(|e| e <= &elem)`, on a list that is sorted.
unfoldable pub partition_point : List (List ℕ) → List ℕ → ℕ
partition_point [] elem = 0
partition_point (e ∷ es) elem =
    let rest = partition_point es elem in if is_greater (cmp_bytes e elem) then 0 else suc rest

-- `v.insert(at, elem)`
unfoldable pub insert_at : ℕ → List ℕ → List (List ℕ) → List (List ℕ)
insert_at zero elem es = elem ∷ es
insert_at (suc at) elem [] = elem ∷ []
insert_at (suc at) elem (e ∷ es) = e ∷ insert_at at elem es

unfoldable pub offer : ProposalFold → List ℕ → ProposalFold
unfolding partition_point insert_at
offer f elem =
    let at = partition_point f.smallest elem in
    let count = saturating_add f.count 1 in
    if ltb at f.keep
    then record f { smallest = take f.keep (insert_at at elem f.smallest); count = count }
    else record f { count = count }

-- The loop of `peer_wins` over the two lists, and what follows it.
unfoldable pub wins_loop : List (List ℕ) → List (List ℕ) → Bool → Bool
wins_loop (p ∷ ps) (o ∷ os) after =
    let rest = wins_loop ps os after in
    elim (cmp_bytes p o) [ equal ↦ rest | less ↦ false | greater ↦ true ]
wins_loop _ _ after = after

unfoldable pub peer_wins : ProposalFold → List (List ℕ) → Bool
unfolding wins_loop
peer_wins f our = wins_loop f.smallest our (ltb (length our) f.count)

-- The loop of `write_canonical_wire_name`.
unfoldable pub write_labels : List (List ℕ) → List ℕ
write_labels [] = []
write_labels (label ∷ ls) =
    let rest = write_labels ls in
    if is_empty label
    then rest
    else min (length label) 63 ∷ (map to_ascii_lowercase (take 63 label) ++ rest)

-- What it appends to `out`.
unfoldable pub write_canonical_wire_name : List ℕ → List ℕ
unfolding write_labels
write_canonical_wire_name name_str =
    if is_empty (trim name_str) then 0 ∷ [] else write_labels (split (trim name_str)) ++ 0 ∷ []
