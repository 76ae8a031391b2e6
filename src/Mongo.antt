-- ===== src/Mongo.antt =====
-- mongo/namespace.go: the names of databases and collections, which the program keeps in variables and
-- registers by pointer, and their renaming for tests. A pointer is a number, and a memory says what each
-- holds. The random names are an argument, by how many were drawn before. A map is ranged over in the
-- order of its list, but what restores the names may do so in any order.
pub mod Restoring
mod Tests
use Prim.Native.String.{◌++◌ as append}
use goutils.Common.{
  ℕ, suc, String, Bool, true, false, Option, none, some, List, [], ◌∷◌, ◌++◌, if◌then◌else◌, ◌==◌,
  str_eq,
}

abbrev pub Memory : Type 0
Memory = ℕ → String

abbrev pub assign : Memory → ℕ → String → Memory
assign mem p s = λ q. if p == q then s else mem q

-- the map namespaces: the pointers to the collections of a database, by the pointer to its name
abbrev pub Namespaces : Type 0
Namespaces = List (ℕ × List ℕ)

abbrev behind : {A : Type 0} → A → Option (List A) → Option (List A)
behind a none = none
behind a (some l) = some (a ∷ l)

-- the loop over the collections that are there, and what it adds; `none` for a second place with the name
abbrev pub registered : Memory → List ℕ → ℕ → Option (List ℕ)
registered mem [] coll = some (coll ∷ [])
registered mem (c ∷ cs) coll =
    let rest = behind c (registered mem cs coll) in
    if coll == c then some (c ∷ cs) else if str_eq (mem coll) (mem c) then none else rest

abbrev pub with_colls : ℕ → Namespaces → Option (List ℕ) → Option Namespaces
with_colls db ns none = none
with_colls db ns (some colls) = some ((db, colls) ∷ ns)

-- RegisterNamespace, `none` for its error
unfoldable pub register_namespace : Memory → ℕ → ℕ → Namespaces → Option Namespaces
register_namespace mem db coll [] = with_colls db [] (registered mem [] coll)
register_namespace mem db coll ((d, colls) ∷ ns) =
    let rest = behind (d, colls) (register_namespace mem db coll ns) in
    if d == db then with_colls d ns (registered mem colls coll) else rest

-- randomizedName, without the new name
pub record RandomizedName : Type 0 where
  pub ptr : ℕ
  pub from : String

-- What the loops of RandomizeNamespaces leave: the memory, the names to restore, and how many names
-- were drawn.
pub record Randomized : Type 0 where
  pub memory : Memory
  pub old : List RandomizedName
  pub drawn : ℕ

abbrev pub saved : Memory → ℕ → RandomizedName
saved mem p = record { ptr = p; from = mem p }

unfoldable pub randomize_colls : (ℕ → String) → List ℕ → Randomized → Randomized
randomize_colls draw [] r = r
randomize_colls draw (c ∷ cs) r = randomize_colls draw cs (record {
  memory = assign r.memory c (draw r.drawn);
  old = saved r.memory c ∷ r.old;
  drawn = suc r.drawn;
})

-- the name of the database is saved before the loop over its collections, and set behind it
abbrev pub randomize_db : (ℕ → String) → ℕ → List ℕ → Randomized → Randomized
randomize_db draw db colls r =
    let s =
      randomize_colls draw colls
        (record r { old = saved r.memory db ∷ r.old; drawn = suc r.drawn }) in
    record s { memory = assign s.memory db (append "test-" (draw r.drawn)) }

unfoldable pub randomize_namespaces : (ℕ → String) → Namespaces → Randomized → Randomized
unfolding randomize_colls
randomize_namespaces draw [] r = r
randomize_namespaces draw ((db, colls) ∷ ns) r =
    randomize_namespaces draw ns (randomize_db draw db colls r)

abbrev pub nothing_randomized : Memory → Randomized
nothing_randomized mem = record { memory = mem; old = []; drawn = 0 }

-- the function restore, over the names in this order
unfoldable pub restore : List RandomizedName → Memory → Memory
restore [] mem = mem
restore (x ∷ xs) mem = restore xs (assign mem x.ptr x.from)
