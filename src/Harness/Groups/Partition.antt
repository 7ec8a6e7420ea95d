-- ===== src/Harness/Groups/Partition.antt =====
-- The result of the grouping is the partition of the proposals into linked ones.
use kis_autotrader.Common.{
  ℕ, suc, ◌≡◌, ◌↔◌, refl, sym, ap, subst, ◌∙◌, arith, ◌==◌, Bool, List, [], ◌∷◌, map, In, In-map,
  map-In, In-keep, keep-In, count, ==_iff,
}
use kis_autotrader.Common.Sort.{sorted, sorted-In, In-sorted, sorted-count, sorted-sum, sum_by}
use kis_autotrader.Harness.Groups.{
  Proposal, Groups, enumerate, group_all, path_lt, first_lt, fuel_for, compute_independent_groups,
}
use kis_autotrader.Harness.Groups.Joined.{Linked, IsItem, items, enumerate-In}
use kis_autotrader.Harness.Groups.Trees.{
  linked_trees, IsDecided, linked_trees-IsDecided, length_items,
}
use kis_autotrader.Harness.Groups.Grouping.{
  group_of, total, group_of-In, In-group_of, members, group_of-group_all, group_all-HasUniqueRoots,
  group_all-total,
}

module _ (ps : List Proposal) where
  -- The groups hold the proposals, each as often as it is given; those of one group are linked, and
  -- a group has every proposal that is linked to one of its own.
  pub record IsPartition (groups : List (List Proposal)) : Type 0 where
    pub covers : (p : Proposal) → In p ps → (g : List Proposal) × In g groups × In p g
    pub linked :
        (g : List Proposal) (p q : Proposal) → In g groups → In p g → In q g → Linked ps p q
    pub closed :
        (g : List Proposal) (p q : Proposal)
        → In g groups
        → In p g
        → In q ps
        → Linked ps p q
        → In q g
    pub counted : (test : Proposal → Bool) → sum_by (count test) groups ≡ count test ps

  members_In :
      (root : ℕ → ℕ) (r : ℕ) (p : Proposal)
      → In p (members root r (items ps))
      → (i : ℕ) × IsItem ps i p × (root i ≡ r)
  members_In root r p h =
      let ((i, q), m, e) = In-map (λ (x : ℕ × Proposal). x.1) p _ h in
      let (m', t) = In-keep (λ (x : ℕ × Proposal). root x.0 == r) (i, q) (items ps) m in
      (i, subst (λ y. In (i, y) (items ps)) (sym e) m', (==_iff (root i) r).0 t)

  In-members :
      (root : ℕ → ℕ) (i : ℕ) (p : Proposal)
      → IsItem ps i p
      → In p (members root (root i) (items ps))
  In-members root i p ip =
      map-In (λ (x : ℕ × Proposal). x.1) (i, p) _
        (keep-In (λ (x : ℕ × Proposal). root x.0 == root i) (i, p) (items ps) ip
          ((==_iff (root i) (root i)).1 refl))

  grouped : Groups
  grouped = group_all (fuel_for (items ps)) (items ps) (linked_trees ps).1 []

  -- A group before the sort, as the members of a root.
  In-grouped :
      (root : ℕ → ℕ)
      → ((s : ℕ) → group_of s grouped ≡ members root s (items ps))
      → (g : List Proposal) (r : ℕ) → In (r, g) grouped
      → g ≡ members root r (items ps)
  unfolding grouped
  In-grouped root e g r m =
      sym (
        group_of-In r g grouped
          (group_all-HasUniqueRoots (fuel_for (items ps)) (items ps) (linked_trees ps).1 [] tt) m)
      ∙ e r

  map_second : (n : ℕ) (qs : List Proposal) → map (λ (x : ℕ × Proposal). x.1) (enumerate n qs) ≡ qs
  map_second n [] = refl
  map_second n (q ∷ qs) = ap (λ l. q ∷ l) (map_second (suc n) qs)

  sum-map_sorted :
      (test : Proposal → Bool) (groups : Groups)
      → sum_by (count test) (map (λ (e : ℕ × List Proposal). sorted path_lt e.1) groups)
        ≡ total test groups
  unfolding total
  sum-map_sorted test [] = refl
  sum-map_sorted test ((r, g) ∷ groups) =
      omega (arith, sorted-count path_lt test g, sum-map_sorted test groups)

  module _ (root : ℕ → ℕ) (decided : IsDecided ps root)
      (same : (s : ℕ) → group_of s grouped ≡ members root s (items ps)) where
    result : List (List Proposal)
    result = sorted first_lt (map (λ (e : ℕ × List Proposal). sorted path_lt e.1) grouped)

    -- A group of the result holds the proposals of one root.
    of_root :
        (g : List Proposal)
        → In g result
        → (r : ℕ) × ((p : Proposal) → (In p g) ↔ ((i : ℕ) × IsItem ps i p × (root i ≡ r)))
    unfolding result
    of_root g m =
        let ((r, f), mf, e) =
          In-map (λ (e : ℕ × List Proposal). sorted path_lt e.1) g grouped
            (sorted-In first_lt g _ m) in
        let members_of = In-grouped root same f r mf in
        (
          r,
          λ p. (
            λ h.
                members_In root r p (
                  subst (λ l. In p l) members_of (sorted-In path_lt p f (subst (λ l. In p l) e h))),
            λ (i, ip, q).
                subst (λ l. In p l) (sym e)
                  (In-sorted path_lt p f (
                    subst (λ l. In p l) (ap (λ s. members root s (items ps)) q ∙ sym members_of)
                      (In-members root i p ip))),
          ),
        )

    covers : (p : Proposal) → In p ps → (g : List Proposal) × In g result × In p g
    unfolding result
    covers p m =
        let (i, ip) = enumerate-In 0 p ps m in
        let here : In p (group_of (root i) grouped) =
          subst (λ l. In p l) (sym (same (root i))) (In-members root i p ip) in
        let (g, mg, e) = In-group_of (root i) p grouped here in
        (
          sorted path_lt g,
          In-sorted first_lt (sorted path_lt g) _
              (map-In (λ (x : ℕ × List Proposal). sorted path_lt x.1) (root i, g) grouped mg),
          In-sorted path_lt p g (subst (λ l. In p l) (sym e) here),
        )

    counted : (test : Proposal → Bool) → sum_by (count test) result ≡ count test ps
    unfolding result grouped total
    counted test = omega (
      arith,
      sorted-sum first_lt (count test)
          (map (λ (e : ℕ × List Proposal). sorted path_lt e.1) grouped),
      sum-map_sorted test grouped,
      group_all-total (fuel_for (items ps)) test (items ps) (linked_trees ps).1 [],
      ap (count test) (map_second 0 ps),
    )

    result-IsPartition : IsPartition result
    result-IsPartition = record {
      covers = covers;
      linked = λ g p q m mp mq.
          let (r, all) = of_root g m in
          let (i, ip, e) = (all p).0 mp in
          let (j, jq, f) = (all q).0 mq in (decided i j p q ip jq).1 (e ∙ sym f);
      closed = λ g p q m mp mq l.
          let (r, all) = of_root g m in
          let (i, ip, e) = (all p).0 mp in
          let (j, jq) = enumerate-In 0 q ps mq in
          (all q).1 (j, jq, sym ((decided i j p q ip jq).0 l) ∙ e);
      counted = counted;
    }

  -- The groups are the classes of the linked proposals: each proposal stands in a group, as often as
  -- it is given, and two proposals stand in one group exactly if they are linked.
  pub compute_independent_groups-IsPartition : IsPartition (compute_independent_groups ps)
  unfolding compute_independent_groups grouped result
  compute_independent_groups-IsPartition =
      let (root, s, decided) = linked_trees-IsDecided ps in
      let same : (r : ℕ) → group_of r grouped ≡ members root r (items ps) = λ r.
        group_of-group_all (fuel_for (items ps)) (omega (arith, length_items 0 ps)) (items ps)
          (linked_trees ps).1 [] r s.forest in
      result-IsPartition root decided same
