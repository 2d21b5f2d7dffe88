-- ===== src/DaemonConfig/Changes/Settings.antt =====
-- Fields of daemonconfig/lifecycle.go that are the same, and what the list of changes says of them.
use zju_portal_core.Base.{
  ◌≡◌, ◌≢◌, refl, ap, Bool, true, false, List, [], ◌∷◌, String, string_eq, inl, inr, Bool-cases,
  arith, if-cases,
}
use zju_portal_core.DaemonConfig.Changes.{
  core_restart, Change, Leaf, leaf_test, path_unless, collect_changes, requirement_for_path,
  change_at, before, place, sorted,
}
use zju_portal_core.DaemonConfig.Changes.Leaves.{leaf_test-eq, leaf_test_self}

-- All fields of the two lists are the same; those of them whose change needs a restart of the core are.
abbrev pub Same : List (String × Leaf) → List (String × Leaf) → Type 0
Same ((p, x) ∷ xs) ((_, y) ∷ ys) = (x ≡ y) × Same xs ys
Same [] ys = Unit {0}
Same (x ∷ xs) [] = Unit {0}

abbrev pub CoreSame : List (String × Leaf) → List (String × Leaf) → Type 0
CoreSame ((p, x) ∷ xs) ((_, y) ∷ ys) =
    (requirement_for_path p ≡ core_restart → x ≡ y) × CoreSame xs ys
CoreSame [] ys = Unit {0}
CoreSame (x ∷ xs) [] = Unit {0}

-- No path of a list needs a restart of the core.
abbrev pub NoCorePath : List String → Type 0
NoCorePath [] = Unit {0}
NoCorePath (p ∷ ps) = (requirement_for_path p ≢ core_restart) × NoCorePath ps

abbrev pub NoCoreChange : List Change → Type 0
NoCoreChange [] = Unit {0}
NoCoreChange (c ∷ cs) = (c.requires ≢ core_restart) × NoCoreChange cs

pub collect-Same : (xs ys : List (String × Leaf)) → collect_changes xs ys ≡ [] → Same xs ys
unfolding collect_changes
collect-Same [] ys h = tt
collect-Same (x ∷ xs) [] h = tt
collect-Same ((p, x) ∷ xs) ((q, y) ∷ ys) h = elim (Bool-cases (leaf_test x y)) [
  | inl same ↦ (leaf_test-eq x y same, collect-Same xs ys (ground (arith, same, h)))
  | inr apart ↦ absurd (ground (arith, apart, h))
]

pub collect_self : (xs : List (String × Leaf)) → collect_changes xs xs ≡ []
unfolding collect_changes
collect_self [] = refl
collect_self ((p, x) ∷ xs) = rw (leaf_test_self x) (collect_self xs)

peel :
    (p : String) (x y : Leaf) (ps : List String) (Rest : Type 0) (t : Bool)
    → leaf_test x y ≡ t
    → (NoCorePath ps → Rest)
    → NoCorePath (path_unless t p ps)
    → (requirement_for_path p ≡ core_restart → x ≡ y) × Rest
peel p x y ps Rest true e rest h = (λ _. leaf_test-eq x y e, rest h)
peel p x y ps Rest false e rest h = (λ r. absurd (h.0 r), rest h.1)

pub collect-CoreSame :
    (xs ys : List (String × Leaf)) → NoCorePath (collect_changes xs ys) → CoreSame xs ys
unfolding collect_changes
collect-CoreSame [] ys h = tt
collect-CoreSame (x ∷ xs) [] h = tt
collect-CoreSame ((p, x) ∷ xs) ((q, y) ∷ ys) h =
    peel p x y _ (CoreSame xs ys) (leaf_test x y) refl (collect-CoreSame xs ys) h

pub CoreSame-collect :
    (xs ys : List (String × Leaf)) → CoreSame xs ys → NoCorePath (collect_changes xs ys)
unfolding collect_changes
CoreSame-collect [] ys h = tt
CoreSame-collect (x ∷ xs) [] h = tt
CoreSame-collect ((p, x) ∷ xs) ((q, y) ∷ ys) (e, h) =
    add (leaf_test x y) refl (CoreSame-collect xs ys h)
  where
    add :
        (t : Bool)
        → leaf_test x y ≡ t
        → NoCorePath (collect_changes xs ys)
        → NoCorePath (path_unless t p (collect_changes xs ys))
    add true z k = k
    add false z k =
        (λ r. ground (arith, ap (λ (y : Leaf). leaf_test x y) (e r), z, leaf_test_self x), k)

place-NoCore :
    (c : Change) (cs : List Change)
    → c.requires ≢ core_restart
    → NoCoreChange cs
    → NoCoreChange (place c cs)
unfolding place
place-NoCore c [] h k = (h, tt)
place-NoCore c (d ∷ ds) h (k, ks) =
    if-cases NoCoreChange (before d.path c.path) (λ _. (k, place-NoCore c ds h ks))
      (λ _. (h, (k, ks)))

NoCore-place :
    (c : Change) (cs : List Change)
    → NoCoreChange (place c cs)
    → (c.requires ≢ core_restart) × NoCoreChange cs
unfolding place
NoCore-place c [] h = h
NoCore-place c (d ∷ ds) h = elim (Bool-cases (before d.path c.path)) [
  | inl first ↦
      let (k, ks) : NoCoreChange (d ∷ place c ds) = rw first at h in
      let (m, ms) = NoCore-place c ds ks in (m, (k, ms))
  | inr last ↦ let (k, ks) : NoCoreChange (c ∷ d ∷ ds) = rw last at h in (k, ks)
]

pub sorted-NoCore : (ps : List String) → NoCorePath ps → NoCoreChange (sorted ps)
unfolding sorted change_at
sorted-NoCore [] h = tt
sorted-NoCore (p ∷ ps) (h, k) = place-NoCore (change_at p) (sorted ps) h (sorted-NoCore ps k)

pub NoCore-sorted : (ps : List String) → NoCoreChange (sorted ps) → NoCorePath ps
unfolding sorted change_at
NoCore-sorted [] h = tt
NoCore-sorted (p ∷ ps) h =
    let (k, ks) = NoCore-place (change_at p) (sorted ps) h in (k, NoCore-sorted ps ks)

place-ne : (c : Change) (cs : List Change) → place c cs ≢ []
unfolding place
place-ne c [] = λ e. absurd (ground arith)
place-ne c (d ∷ ds) = λ e. absurd (ground arith)

pub sorted-none : (ps : List String) → sorted ps ≡ [] → ps ≡ []
unfolding sorted
sorted-none [] h = refl
sorted-none (p ∷ ps) h = absurd (place-ne (change_at p) (sorted ps) h)
