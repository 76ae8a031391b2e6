-- ===== src/Artifact/Tree.antt =====
-- artifact/tree.go: the tree of artifacts. A node has exactly one of Go's two pointers set: `leaf`
-- is a node with `external`, `branch` one with `internal`. The nil map that `node.internal` is at an
-- external node is `none`. Go changes the maps in place; here an operation returns the new tree.
pub mod Paths
pub mod Lookup
pub mod Siblings
pub mod Maps
use goutils.Common.{ℕ, String, Bool, true, false, Option, none, some, List, [], ◌∷◌, if◌then◌else◌}
use goutils.Common.Forest.{Node, Forest, leaf, branch, empty, child, put_child, remove_child}

pub record TreeNodeExternal : Type 0 where
  pub hash : String
  pub size : ℕ

abbrev pub TreeNode : Type 0
TreeNode = Node TreeNodeExternal

abbrev pub TreeNodeTree : Type 0
TreeNodeTree = Forest TreeNodeExternal

-- whether `len(path) == 1`, of what follows the first name
abbrev pub is_last : List String → Bool
is_last [] = true
is_last (x ∷ xs) = false

module _ {A : Type 0} where
  -- node.internal
  abbrev pub internal : Node A → Option (Forest A)
  internal (leaf e) = none
  internal (branch f) = some f

  abbrev pub is_internal : Node A → Bool
  is_internal (leaf e) = false
  is_internal (branch f) = true

  -- the map that storeHash goes down into: a new one where the node is missing or external
  abbrev pub internal_or_new : Option (Node A) → Forest A
  internal_or_new none = empty
  internal_or_new (some (leaf e)) = empty
  internal_or_new (some (branch f)) = f

  unfoldable pub lookup : Option (Forest A) → List String → Option (Node A)
  lookup none path = none
  lookup (some t) [] = none
  lookup (some t) (name ∷ rest) = elim (child t name) [
    | none ↦ none
    | some node ↦
        let below = lookup (internal node) rest in if is_last rest then some node else below
  ]

  -- The walk of storeHash, which leaves `node` at the path.
  unfoldable pub store_node : Forest A → Node A → List String → Forest A
  store_node t node [] = t
  store_node t node (name ∷ rest) =
      let below = store_node (internal_or_new (child t name)) node rest in
      if is_last rest then put_child t name node else put_child t name (branch below)

  unfoldable pub remove_path : Forest A → List String → Forest A
  remove_path t [] = t
  remove_path t (name ∷ rest) = elim (child t name) [
    | none ↦ if is_last rest then remove_child t name else t
    | some (leaf e) ↦ if is_last rest then remove_child t name else t
    | some (branch f) ↦
        let below = remove_path f rest in
        if is_last rest then remove_child t name else put_child t name (branch below)
  ]

unfoldable pub store_hash : TreeNodeTree → String → ℕ → List String → TreeNodeTree
unfolding store_node
store_hash t node_hash node_size path =
    store_node t (leaf (record { hash = node_hash; size = node_size })) path
