-- ===== src/Wire/Name/Spells.antt =====
-- RFC 1035 §4.1.4, written down on its own: what it means that a message spells a name at an
-- offset. The iterator `NameLabels` is compared with this relation in `Decode`.
use hick.Prelude.{ℕ, suc, ◌+◌, ◌*◌, ◌<◌, ◌≡◌, List, [], ◌∷◌, some, length, get_elem?, slice?}
use hick.Wire.Name.{Label}

-- `Spells m h c ls`: from the offset `c` the message `m` spells the labels `ls` and then the root,
-- through `h` compression pointers at most, each of which points strictly backwards.
pub data Spells (m : List ℕ) : ℕ → ℕ → List Label → Type 0 where
  root : {h c : ℕ} → get_elem? m c ≡ some 0 → Spells m h c []
  label :
      {h c : ℕ} {ls : List Label} (b : ℕ) (l : Label)
      → get_elem? m c ≡ some b
      → 0 < b
      → b < 64
      → slice? m (c + 1) (c + 1 + b) ≡ some l
      → c + 1 + b < 0x10000
      → Spells m h (c + 1 + b) ls
      → Spells m h c (l ∷ ls)
  pointer :
      {h c : ℕ} {ls : List Label} (hi lo : ℕ)
      → get_elem? m c ≡ some (192 + hi)
      → hi < 64
      → get_elem? m (c + 1) ≡ some lo
      → hi * 256 + lo < c
      → Spells m h (hi * 256 + lo) ls
      → Spells m (suc h) c ls

-- The length of the uncompressed form without its root: an octet for each label, and its bytes.
abbrev pub octets : List Label → ℕ
octets [] = 0
octets (l ∷ ls) = suc (length l) + octets ls
