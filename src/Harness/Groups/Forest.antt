-- ===== src/Harness/Groups/Forest.antt =====
-- The parents form a forest in which find leads to the root, however the paths are halved.
use mathlib.Core.Path.{fun_ext}
use kis_autotrader.Common.{
  ℕ, zero, suc, ◌≤◌, ◌<◌, ◌≡◌, refl, sym, ap, ◌∙◌, arith, ◌⊎◌, inl, inr, ◌==◌, false, Bool-cases,
  ==_iff, if◌then◌else◌,
}
use kis_autotrader.Harness.Groups.{Parents, set, find, hang, union}

-- Every index has the root that its parent has, roots are their own parents and roots, and the
-- distance to the root falls along a path and is `k` at most.
pub record IsForest (root dist : ℕ → ℕ) (k : ℕ) (parent : Parents) : Type 0 where
  pub fixed : (x : ℕ) → parent (root x) ≡ root x
  pub same_root : (x : ℕ) → root (parent x) ≡ root x
  pub own_root : (x : ℕ) → parent x ≡ x → (root x ≡ x) × (dist x ≡ 0)
  pub falls : (x : ℕ) → (parent x ≡ x) ⊎ (dist (parent x) < dist x)
  pub bounded : (x : ℕ) → dist x ≤ k

module _ {root dist : ℕ → ℕ} {k : ℕ} where
  -- A root is its own root.
  pub root-root :
      {parent : Parents} → IsForest root dist k parent → (x : ℕ) → root (root x) ≡ root x
  root-root t x = (t.own_root (root x) (t.fixed x)).0

  pub halve-IsForest :
      (parent : Parents) (x : ℕ)
      → IsForest root dist k parent
      → IsForest root dist k (set x (parent (parent x)) parent)
  halve-IsForest parent x t = record {
    fixed = λ y. elim (Bool-cases (root y == x)) [
      | inl e ↦ rw e (cc (t.fixed y, (==_iff (root y) x).0 e))
      | inr e ↦ rw e (t.fixed y)
    ];
    same_root = λ y. elim (Bool-cases (y == x)) [
      | inl e ↦ rw e (cc (t.same_root x, t.same_root (parent x), (==_iff y x).0 e))
      | inr e ↦ rw e (t.same_root y)
    ];
    own_root = λ y. elim (Bool-cases (y == x)) [
      | inl e ↦
          rw e λ h. let q = (==_iff y x).0 e in t.own_root y (cc (q, fixed_of_halved x (h ∙ q)))
      | inr e ↦ rw e (t.own_root y)
    ];
    falls = λ y. elim (Bool-cases (y == x)) [
      | inl e ↦ rw e (halved_falls y x ((==_iff y x).0 e))
      | inr e ↦ rw e (t.falls y)
    ];
    bounded = t.bounded;
  }
    where
      -- A path of two steps leads back only from a root.
      fixed_of_halved : (x : ℕ) → parent (parent x) ≡ x → parent x ≡ x
      fixed_of_halved x h = elim (t.falls x) [
        | inl e ↦ e
        | inr d ↦ elim (t.falls (parent x)) [
          | inl e ↦ sym e ∙ h
          | inr d' ↦ absurd (omega (arith, ap dist h))
        ]
      ]

      halved_falls :
          (y x : ℕ) → y ≡ x → (parent (parent x) ≡ y) ⊎ (dist (parent (parent x)) < dist y)
      halved_falls y x q = elim (t.falls x) [
        | inl e ↦ inl (cc)
        | inr d ↦ elim (t.falls (parent x)) [
          | inl e ↦ inr (omega (arith, ap dist e, ap dist q))
          | inr d' ↦ inr (omega (arith, ap dist q))
        ]
      ]

  -- With more fuel than the distance `find` returns the root, and leaves the roots as they were.
  pub find-root :
      (fuel : ℕ) (parent : Parents) (x : ℕ)
      → IsForest root dist k parent
      → dist x < fuel
      → IsForest root dist k (find fuel parent x).0 × ((find fuel parent x).1 ≡ root x)
  unfolding find
  find-root zero parent x t h = absurd (omega arith)
  find-root (suc fuel) parent x t h = elim (Bool-cases (parent x == x)) [
    | inl e ↦ rw e (t, sym (t.own_root x ((==_iff (parent x) x).0 e)).0)
    | inr e ↦
        let y = parent (parent x) in
        let (t', r) =
          find-root fuel (set x y parent) y (halve-IsForest parent x t)
            (omega (arith, dist_halved e)) in
        let at_x : set x y parent x ≡ y = ground arith in
        rw (e, at_x) (t', r ∙ t.same_root (parent x) ∙ t.same_root x)
  ]
    where
      dist_halved : (parent x == x) ≡ false → dist (parent (parent x)) < dist x
      dist_halved e = elim (t.falls x) [
        | inl q ↦ absurd (ground (arith, q))
        | inr d ↦ elim (t.falls (parent x)) [
          | inl q ↦ omega (arith, ap dist q)
          | inr d' ↦ omega arith
        ]
      ]

-- The roots when the trees of two indices are joined.
abbrev pub joined : (ℕ → ℕ) → ℕ → ℕ → ℕ → ℕ
joined root a b x = if root x == root a then root b else root x

abbrev pub deeper : (ℕ → ℕ) → (ℕ → ℕ) → ℕ → ℕ → ℕ → ℕ
deeper root dist a b x =
    if root a == root b then dist x else if root x == root a then suc (dist x) else dist x

module _ {root dist : ℕ → ℕ} {k : ℕ} where
  hang-IsForest :
      (parent : Parents) (a b : ℕ)
      → IsForest root dist k parent
      → IsForest (joined root a b) (deeper root dist a b) (suc k) (hang (root a) (root b) parent)
  hang-IsForest parent a b t = elim (Bool-cases (root a == root b)) [
    | inl e ↦
        let same : joined root a b ≡ root = fun_ext λ x. ground (arith, e) in
        let flat : deeper root dist a b ≡ dist = fun_ext λ x. rw e refl in
        rw (same, flat, e)
          record {
            fixed = t.fixed;
            same_root = t.same_root;
            own_root = t.own_root;
            falls = t.falls;
            bounded = λ x. omega (arith, t.bounded x);
          }
    | inr e ↦ rw e record {
      fixed = λ x. ground (arith, e, t.fixed x, t.fixed b);
      same_root = λ x. ground (arith, e, t.same_root x, root-root t a, root-root t b);
      own_root = λ x h. ground (arith, e, t.own_root x);
      falls = λ x. elim (Bool-cases (x == root a)) [
        | inl q ↦
            let at_a : x ≡ root a = (==_iff x (root a)).0 q in
            rw q (
              inr (
                ground (
                  arith,
                  e,
                  root-root t a,
                  root-root t b,
                  t.own_root (root b) (t.fixed b),
                  ap root at_a,
                )))
        | inr q ↦
            rw q (elim (t.falls x) [ inl f ↦ inl f | inr f ↦ inr (ground (arith, t.same_root x)) ])
      ];
      bounded = λ x. ground (arith, t.bounded x);
    }
  ]

  pub union-IsForest :
      (fuel : ℕ) (parent : Parents) (a b : ℕ)
      → IsForest root dist k parent
      → k < fuel
      → IsForest (joined root a b) (deeper root dist a b) (suc k) (union fuel parent a b)
  unfolding union
  union-IsForest fuel parent a b t h =
      let (t', ra) = find-root fuel parent a t (omega (arith, t.bounded a)) in
      let (t'', rb) = find-root fuel (find fuel parent a).0 b t' (omega (arith, t.bounded b)) in
      rw (ra, rb) (hang-IsForest (find fuel (find fuel parent a).0 b).0 a b t'')
