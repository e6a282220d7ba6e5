-- ===== src/Cache/Names.antt =====
-- Directories with distinct names, and removal by name.
use gitopia_storage.Prelude.{
  ◌≡◌, ◌≢◌, ◌⊎◌, inl, inr, refl, sym, ◌∙◌, ap, arith, String, [], ◌∷◌, ◌++◌, eq_iff, All,
}
use gitopia_storage.Cache.{Node, Dir, remove}

abbrev pub Absent : String → Dir → Type 0
Absent name = All (λ n. n.name ≢ name)

abbrev pub Distinct : Dir → Type 0
Distinct [] = Unit
Distinct (n ∷ ns) = Absent n.name ns × Distinct ns

abbrev pub Among : Node → Dir → Type 0
Among n [] = ⊥
Among n (m ∷ ms) = (n ≡ m) ⊎ Among n ms

pub remove-Absent : (name : String) (dir : Dir) → Absent name dir → remove name dir ≡ dir
unfolding remove
remove-Absent name [] h = refl
remove-Absent name (n ∷ ns) h = ground (arith, h.0, eq_iff n.name name, remove-Absent name ns h.1)

pub remove-append :
    (name : String) (xs ys : Dir) → remove name (xs ++ ys) ≡ remove name xs ++ remove name ys
unfolding remove
remove-append name [] ys = refl
remove-append name (n ∷ ns) ys = ground (arith, remove-append name ns ys)

pub Among-remove :
    (n : Node) (name : String) (dir : Dir) → n.name ≢ name → Among n dir → Among n (remove name dir)
unfolding remove
Among-remove n name [] h i = i
Among-remove n name (m ∷ ms) h (inl e) =
    ground (arith, eq_iff m.name name, ap (λ (k : Node). k.name) e)
Among-remove n name (m ∷ ms) h (inr i) = ground (arith, Among-remove n name ms h i)

-- nothing is new
pub remove-Among : (n : Node) (name : String) (dir : Dir) → Among n (remove name dir) → Among n dir
unfolding remove
remove-Among n name [] i = i
remove-Among n name (m ∷ ms) i = ground (arith, remove-Among n name ms)

pub Absent-remove : (k name : String) (dir : Dir) → Absent k dir → Absent k (remove name dir)
unfolding remove
Absent-remove k name [] h = tt
Absent-remove k name (n ∷ ns) h = ground (arith, Absent-remove k name ns h.1)

pub Distinct-remove : (name : String) (dir : Dir) → Distinct dir → Distinct (remove name dir)
unfolding remove
Distinct-remove name [] h = tt
Distinct-remove name (n ∷ ns) h =
    ground (arith, Distinct-remove name ns h.1, Absent-remove n.name name ns h.0)

pub Among-Absent : (n : Node) (k : String) (dir : Dir) → Absent k dir → Among n dir → n.name ≢ k
Among-Absent n k [] a i = elim i [ ]
Among-Absent n k (m ∷ ms) a (inl e) = λ q. a.0 (sym (ap (λ (x : Node). x.name) e) ∙ q)
Among-Absent n k (m ∷ ms) a (inr i) = Among-Absent n k ms a.1 i

-- the name tells the entry
pub same_node :
    (n m : Node) (dir : Dir) → Distinct dir → Among n dir → Among m dir → m.name ≡ n.name → m ≡ n
same_node n m [] d i j q = elim i [ ]
same_node n m (x ∷ xs) d (inl e) (inl f) q = f ∙ sym e
same_node n m (x ∷ xs) d (inl e) (inr j) q =
    absurd (Among-Absent m x.name xs d.0 j (q ∙ ap (λ (y : Node). y.name) e))
same_node n m (x ∷ xs) d (inr i) (inl f) q =
    absurd (Among-Absent n x.name xs d.0 i (sym q ∙ ap (λ (y : Node). y.name) f))
same_node n m (x ∷ xs) d (inr i) (inr j) q = same_node n m xs d.1 i j q
