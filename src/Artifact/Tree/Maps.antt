-- ===== src/Artifact/Tree/Maps.antt =====
-- Trees whose maps hold each name once, as every Go map does.
use goutils.Common.{Bool, true, false, ◌&&◌, Option, none, some}
use goutils.Common.Forest.{Node, Forest, leaf, branch, empty, entry, child}

module _ {A : Type 0} where
  abbrev pub is_none : Option (Node A) → Bool
  is_none none = true
  is_none (some n) = false

  unfoldable mutual
    unfolding child

    pub is_map_node : Node A → Bool
    is_map_node (leaf a) = true
    is_map_node (branch f) = is_map f

    pub is_map : Forest A → Bool
    is_map empty = true
    is_map (entry name n rest) = is_none (child rest name) && (is_map_node n && is_map rest)
