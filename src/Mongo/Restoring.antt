-- ===== src/Mongo/Restoring.antt =====
-- The names behind the function that RandomizeNamespaces returns.
use Prim.Native.String.{◌++◌ as append}
use mathlib.Core.List.Permᴰ.{Permᴰ, nil, cons, swap, trans}
use goutils.Common.{
  ℕ, suc, String, ◌≡◌, refl, sym, ap, ◌∙◌, subst, Bool, true, false, ◌||◌, ◌⊎◌, inl, inr, List, [],
  ◌∷◌, ◌++◌, if◌then◌else◌, ◌==◌, arith, All,
}
use goutils.Mongo.{
  Memory, assign, Namespaces, RandomizedName, Randomized, saved, randomize_colls, randomize_db,
  randomize_namespaces, nothing_randomized, restore,
}

-- whether one of the names stands at the pointer
unfoldable pub has_pointer : List RandomizedName → ℕ → Bool
has_pointer [] p = false
has_pointer (x ∷ xs) p = (x.ptr == p) || has_pointer xs p

-- each name is the one that the memory has
abbrev pub AreFrom : Memory → List RandomizedName → Type 0
AreFrom mem xs = All (λ x. x.from ≡ mem x.ptr) xs

-- What is not among the saved names is as it was.
abbrev pub IsKept : Memory → List RandomizedName → Memory → Type 0
IsKept mem xs now = (p : ℕ) → (has_pointer xs p ≡ true) ⊎ (now p ≡ mem p)

restore-as_before :
    (mem now : Memory) (xs : List RandomizedName)
    → AreFrom mem xs
    → IsKept mem xs now
    → (p : ℕ) → restore xs now p ≡ mem p
unfolding restore has_pointer
restore-as_before mem now [] a k p = elim (k p) [ inl h ↦ absurd (cc) | inr h ↦ h ]
restore-as_before mem now (x ∷ xs) (e, a) k p =
    restore-as_before mem (assign now x.ptr x.from) xs a kept p
  where
    kept : IsKept mem xs (assign now x.ptr x.from)
    kept q = go (x.ptr == q) refl (k q)
      where
        go :
            (b : Bool)
            → (x.ptr == q) ≡ b
            → ((b || has_pointer xs q) ≡ true) ⊎ (now q ≡ mem q)
            → (has_pointer xs q ≡ true) ⊎ ((if b then x.from else now q) ≡ mem q)
        go true h r = inr (e ∙ ap mem (ground (arith, h)))
        go false h r = r

or_swap : (x y z : Bool) → (x || (y || z)) ≡ (y || (x || z))
or_swap true y z = ground arith
or_swap false y z = refl

pointer-Perm :
    {xs ys : List RandomizedName} → Permᴰ xs ys → (p : ℕ) → has_pointer xs p ≡ has_pointer ys p
unfolding has_pointer
pointer-Perm nil p = refl
pointer-Perm (cons {a = a} {b = b} {l₁ = l} e h) p =
    ap (λ x. (x.ptr == p) || has_pointer l p) e ∙ ap (λ r. (b.ptr == p) || r) (pointer-Perm h p)
pointer-Perm (swap {a = a} {b = b} {a' = c} {b' = d} {l = l} e f) p =
    or_swap (a.ptr == p) (b.ptr == p) (has_pointer l p)
    ∙ ap (λ x. (x.ptr == p) || ((a.ptr == p) || has_pointer l p)) f
    ∙ ap (λ x. (c.ptr == p) || ((x.ptr == p) || has_pointer l p)) e
pointer-Perm (trans h k) p = pointer-Perm h p ∙ pointer-Perm k p

from-Perm :
    (mem : Memory) {xs ys : List RandomizedName} → Permᴰ xs ys → AreFrom mem xs → AreFrom mem ys
from-Perm mem nil a = a
from-Perm mem (cons e h) (p, a) = (subst (λ x. x.from ≡ mem x.ptr) e p, from-Perm mem h a)
from-Perm mem (swap e f) (p, (q, a)) =
    (subst (λ x. x.from ≡ mem x.ptr) f q, (subst (λ x. x.from ≡ mem x.ptr) e p, a))
from-Perm mem (trans h k) a = from-Perm mem k (from-Perm mem h a)

-- Each pointer is there once.
abbrev pub AreDistinct : List ℕ → Type 0
AreDistinct [] = Unit
AreDistinct (p ∷ l) = All (λ q. (p == q) ≡ false) l × AreDistinct l

abbrev pub pointers : Namespaces → List ℕ
pointers [] = []
pointers ((db, colls) ∷ ns) = db ∷ colls ++ pointers ns

-- The saved names are from the first memory, and the pointers that are left are not among them.
abbrev IsRandomized : Memory → List ℕ → Randomized → Type 0
IsRandomized mem l r =
    AreFrom mem r.old
    × IsKept mem r.old r.memory
    × AreDistinct l
    × All (λ q. has_pointer r.old q ≡ false) l

save-IsRandomized :
    (mem : Memory) (p : ℕ) (l : List ℕ) (r : Randomized) (n : ℕ)
    → IsRandomized mem (p ∷ l) r
    → IsRandomized mem l (record r { old = saved r.memory p ∷ r.old; drawn = n })
unfolding has_pointer
save-IsRandomized mem p l r n (a, k, (d, ds), (f, fs)) =
    ((same (k p), a), kept, ds, both_false l d fs)
  where
    same : (has_pointer r.old p ≡ true) ⊎ (r.memory p ≡ mem p) → r.memory p ≡ mem p
    same (inl h) = absurd (cc)
    same (inr h) = h

    kept : (q : ℕ) → (((p == q) || has_pointer r.old q) ≡ true) ⊎ (r.memory q ≡ mem q)
    kept q = go (p == q) (k q)
      where
        go :
            (b : Bool)
            → (has_pointer r.old q ≡ true) ⊎ (r.memory q ≡ mem q)
            → ((b || has_pointer r.old q) ≡ true) ⊎ (r.memory q ≡ mem q)
        go true h = inl refl
        go false h = h

    both_false :
        (l : List ℕ)
        → All (λ q. (p == q) ≡ false) l
        → All (λ q. has_pointer r.old q ≡ false) l
        → All (λ q. ((p == q) || has_pointer r.old q) ≡ false) l
    both_false [] d f = tt
    both_false (q ∷ l) (d, ds) (f, fs) =
        (ap (λ b. b || has_pointer r.old q) d ∙ f, both_false l ds fs)

assign-IsRandomized :
    (mem : Memory) (p : ℕ) (s : String) (l : List ℕ) (r : Randomized)
    → has_pointer r.old p ≡ true
    → IsRandomized mem l r
    → IsRandomized mem l (record r { memory = assign r.memory p s })
assign-IsRandomized mem p s l r h (a, k, d, f) = (a, kept, d, f)
  where
    kept : (q : ℕ) → (has_pointer r.old q ≡ true) ⊎ ((if p == q then s else r.memory q) ≡ mem q)
    kept q = go (p == q) refl (k q)
      where
        go :
            (b : Bool)
            → (p == q) ≡ b
            → (has_pointer r.old q ≡ true) ⊎ (r.memory q ≡ mem q)
            → (has_pointer r.old q ≡ true) ⊎ ((if b then s else r.memory q) ≡ mem q)
        go true e o = inl (ap (has_pointer r.old) (sym (ground (arith, e))) ∙ h)
        go false e o = o

first_pointer :
    (mem : Memory) (p : ℕ) (xs : List RandomizedName) → has_pointer (saved mem p ∷ xs) p ≡ true
unfolding has_pointer
first_pointer mem p xs = ground arith

randomize_colls-IsRandomized :
    (draw : ℕ → String) (mem : Memory) (cs l : List ℕ) (r : Randomized)
    → IsRandomized mem (cs ++ l) r
    → IsRandomized mem l (randomize_colls draw cs r)
unfolding randomize_colls
randomize_colls-IsRandomized draw mem [] l r h = h
randomize_colls-IsRandomized draw mem (c ∷ cs) l r h =
    let s = record r { old = saved r.memory c ∷ r.old; drawn = suc r.drawn } in
    randomize_colls-IsRandomized draw mem cs l
      (record s { memory = assign r.memory c (draw r.drawn) })
      (assign-IsRandomized mem c (draw r.drawn) (cs ++ l) s (first_pointer r.memory c r.old)
        (save-IsRandomized mem c (cs ++ l) r (suc r.drawn) h))

randomize_colls-has_pointer :
    (draw : ℕ → String) (cs : List ℕ) (r : Randomized) (p : ℕ)
    → has_pointer r.old p ≡ true
    → has_pointer ((randomize_colls draw cs r).old) p ≡ true
unfolding randomize_colls has_pointer
randomize_colls-has_pointer draw [] r p h = h
randomize_colls-has_pointer draw (c ∷ cs) r p h =
    randomize_colls-has_pointer draw cs
      (record {
        memory = assign r.memory c (draw r.drawn);
        old = saved r.memory c ∷ r.old;
        drawn = suc r.drawn;
      })
      p (ground (arith, h))

randomize_namespaces-IsRandomized :
    (draw : ℕ → String) (mem : Memory) (ns : Namespaces) (r : Randomized)
    → IsRandomized mem (pointers ns) r
    → IsRandomized mem [] (randomize_namespaces draw ns r)
unfolding randomize_namespaces
randomize_namespaces-IsRandomized draw mem [] r h = h
randomize_namespaces-IsRandomized draw mem ((db, colls) ∷ ns) r h =
    let s = record r { old = saved r.memory db ∷ r.old; drawn = suc r.drawn } in
    randomize_namespaces-IsRandomized draw mem ns (randomize_db draw db colls r) (
      assign-IsRandomized mem db (append "test-" (draw r.drawn)) (pointers ns)
        (randomize_colls draw colls s)
        (randomize_colls-has_pointer draw colls s db (first_pointer r.memory db r.old))
        (randomize_colls-IsRandomized draw mem colls (pointers ns) s
          (save-IsRandomized mem db (colls ++ pointers ns) r (suc r.drawn) h)))

none_saved : (l : List ℕ) → All (λ q. has_pointer [] q ≡ false) l
unfolding has_pointer
none_saved [] = tt
none_saved (q ∷ l) = (refl, none_saved l)

-- Where no variable is registered twice, not even as a database and as a collection, the names are
-- restored: in whatever order the saved ones are written back, each variable then has its old name.
pub randomize_namespaces-restore :
    (draw : ℕ → String) (mem : Memory) (ns : Namespaces) (order : List RandomizedName)
    → AreDistinct (pointers ns)
    → let r = randomize_namespaces draw ns (nothing_randomized mem) in
      Permᴰ r.old order → (p : ℕ) → restore order r.memory p ≡ mem p
randomize_namespaces-restore draw mem ns order d perm p =
    let r = randomize_namespaces draw ns (nothing_randomized mem) in
    let (a, k, c, f) =
      randomize_namespaces-IsRandomized draw mem ns (nothing_randomized mem)
        (tt, (λ q. inr refl), d, none_saved (pointers ns)) in
    restore-as_before mem r.memory order (from-Perm mem perm a)
      (λ q. subst (λ b. (b ≡ true) ⊎ (r.memory q ≡ mem q)) (pointer-Perm perm q) (k q)) p
