-- ===== src/Artifact/Config.antt =====
-- artifact/config.go: the part of Config that finds and changes artifacts by path.
pub mod Paths
use Prim.Native.Char.{Char, code}
use goutils.Common.{
  ℕ, String, ◌≡◌, refl, Option, none, some, List, [], ◌∷◌, if◌then◌else◌, ◌==◌, str_eq,
}
use goutils.Common.Forest.{branch}
use goutils.Artifact.Error.{Result, ok, err, not_found_path}
use goutils.Artifact.Tree.{TreeNode, TreeNodeTree, TreeNodeExternal, store_hash, store_node}
use goutils.Artifact.Tree

pub record Config : Type 0 where
  pub cache : String
  pub root : String
  pub source_pull_size_limit : ℕ
  pub ignore_set : List String
  pub tree : TreeNodeTree

-- one more character in front of the first piece
abbrev prepend : Char → List String → List String
prepend c [] = String.◌∷◌ c String.[] ∷ []
prepend c (s ∷ r) = String.◌∷◌ c s ∷ r

-- strings.Split(path, "/")
unfoldable pub split : String → List String
split String.[] = String.[] ∷ []
split (String.◌∷◌ c s) =
    let rest = split s in if code c == b'/' then String.[] ∷ rest else prepend c rest

abbrev or_not_found : String → Option TreeNode → Result TreeNode
or_not_found path none = err (not_found_path path)
or_not_found path (some node) = ok node

unfoldable pub lookup : Config → String → Result TreeNode
lookup c path =
    if str_eq path "/"
    then ok (branch c.tree)
    else or_not_found path (Tree.lookup (some c.tree) (split path))

unfoldable pub remove_path : Config → String → Config
remove_path c path = record c { tree = Tree.remove_path c.tree (split path) }

unfoldable pub store_hash_at : Config → String → ℕ → List String → Config
store_hash_at c node_hash node_size path = record c {
  tree = store_hash c.tree node_hash node_size path;
}

split_test : split "a/bc//" ≡ "a" ∷ "bc" ∷ "" ∷ "" ∷ []
unfolding split
split_test = refl
