-- ===== src/Harness/Groups/Trees.antt =====
-- The trees behind all loops: two proposals stand in one exactly if they are linked.
use Prim.Native.String.{String}
use kis_autotrader.Common.{
  ℕ, suc, ◌+◌, ◌≤◌, ◌≡◌, ◌↔◌, refl, sym, ap, subst, ◌∙◌, arith, inl, inr, true, false, some, List,
  [], ◌∷◌, All, All-In, All-of_In, In, In-keep, keep-In, keep, length, length-keep,
}
use kis_autotrader.Common.Dict.{lookup}
use kis_autotrader.Harness.Groups.{
  Proposal, Links, lacks_files, union_empty, enumerate, link_all, file_count, fuel_for,
}
use kis_autotrader.Harness.Groups.Joined.{
  Linked, same, without_files, share, back, through, IsItem, IsJoined, items, enumerate-In,
  union_all-IsJoined, weaken-IsJoined,
}
use kis_autotrader.Harness.Groups.Owners.{IsOwned, IsLinked, link_all-IsOwned}

le_index : (n i : ℕ) (p : Proposal) (ps : List Proposal) → In (i, p) (enumerate n ps) → n ≤ i
le_index n i p [] h = absurd h
le_index n i p (q ∷ ps) (inl e) = omega (arith, ap (λ (x : ℕ × Proposal). x.0) e)
le_index n i p (q ∷ ps) (inr h) = omega (arith, le_index (suc n) i p ps h)

item_unique :
    (n i : ℕ) (p q : Proposal) (ps : List Proposal)
    → In (i, p) (enumerate n ps)
    → In (i, q) (enumerate n ps)
    → p ≡ q
item_unique n i p q [] h k = absurd h
item_unique n i p q (r ∷ ps) (inl e) (inl f) = ap (λ (x : ℕ × Proposal). x.1) (e ∙ sym f)
item_unique n i p q (r ∷ ps) (inl e) (inr k) =
    absurd (omega (arith, ap (λ (x : ℕ × Proposal). x.0) e, le_index (suc n) i q ps k))
item_unique n i p q (r ∷ ps) (inr h) (inl f) =
    absurd (omega (arith, ap (λ (x : ℕ × Proposal). x.0) f, le_index (suc n) i p ps h))
item_unique n i p q (r ∷ ps) (inr h) (inr k) = item_unique (suc n) i p q ps h k

lacks_files_lem : (x : ℕ × Proposal) → (lacks_files x ≡ true) ↔ (x.1.files ≡ [])
lacks_files_lem (i, p) = by_files p.files
  where
    by_files : (fs : List String) → ((elim fs [ [] ↦ true | f ∷ gs ↦ false ]) ≡ true) ↔ (fs ≡ [])
    by_files [] = (λ h. refl, λ h. refl)
    by_files (f ∷ fs) = (λ h. cc, λ h. cc)

pub length_items : (n : ℕ) (ps : List Proposal) → length (enumerate n ps) ≡ length ps
length_items n [] = refl
length_items n (p ∷ ps) = ap suc (length_items (suc n) ps)

module _ (ps : List Proposal) where
  -- Before the loops each index is a tree of its own.
  start-IsJoined : IsJoined ps 0 (λ i. i) (λ i. i)
  start-IsJoined = record {
    dist = λ i. 0;
    forest = record {
      fixed = λ x. refl;
      same_root = λ x. refl;
      own_root = λ x e. (refl, refl);
      falls = λ x. inl refl;
      bounded = λ x. omega arith;
    };
    sound = λ i j p q ip jq e.
        subst (λ r. Linked ps p r)
          (item_unique 0 j p q ps (subst (λ n. In (n, p) (items ps)) e ip) jq) same;
  }

  MeetEmpty : (ℕ → ℕ) → Type 0
  MeetEmpty root =
      (i j : ℕ) (p q : Proposal)
      → IsItem ps i p
      → IsItem ps j q
      → p.files ≡ []
      → q.files ≡ []
      → root i ≡ root j

  union_empty-IsJoined :
      (fuel : ℕ)
      → length (keep lacks_files (items ps)) ≤ fuel
      → (root : ℕ → ℕ) × IsJoined ps
          (length (keep lacks_files (items ps)))
          (union_empty fuel (keep lacks_files (items ps)) (λ i. i))
          root
        × MeetEmpty root
  unfolding union_empty MeetEmpty
  union_empty-IsJoined fuel h = over (keep lacks_files (items ps)) refl h
    where
      empty_item :
          (es : List (ℕ × Proposal))
          → keep lacks_files (items ps) ≡ es
          → (x : ℕ × Proposal) → In x es
          → IsItem ps x.0 x.1 × (x.1.files ≡ [])
      empty_item es e x m =
          let (ix, t) =
            In-keep lacks_files x (items ps)
              (subst (λ (ys : List (ℕ × Proposal)). In x ys) (sym e) m) in
          (ix, (lacks_files_lem x).0 t)

      over :
          (es : List (ℕ × Proposal))
          → keep lacks_files (items ps) ≡ es
          → length es ≤ fuel
          → (root : ℕ → ℕ) × IsJoined ps (length es) (union_empty fuel es (λ i. i)) root
            × MeetEmpty root
      over [] e k = (
        λ i. i,
        start-IsJoined,
        λ i j p q ip jq ep eq. absurd (
            subst (λ es. In (i, p) es) e
              (keep-In lacks_files (i, p) (items ps) ip ((lacks_files_lem (i, p)).1 ep))),
      )
      over ((first, pf) ∷ rest) e k =
          let (ipf, epf) = empty_item ((first, pf) ∷ rest) e (first, pf) (inl refl) in
          let (root, s, c, met) =
            union_all-IsJoined ps fuel 0 (λ i. i) (λ i. i) first pf rest (omega arith) ipf epf
              (All-of_In _ rest (λ x m. empty_item ((first, pf) ∷ rest) e x (inr m)))
              start-IsJoined in
          let at_first : (i : ℕ) (p : Proposal)
              → IsItem ps i p
              → p.files ≡ []
              → root first ≡ root i =
            λ i p ip ep.
              elim (subst (λ es. In (i, p) es) e
                (keep-In lacks_files (i, p) (items ps) ip ((lacks_files_lem (i, p)).1 ep))) [
                  | inl q ↦ ap (λ (x : ℕ × Proposal). root x.0) (sym q)
                  | inr m ↦ All-In (λ (x : ℕ × Proposal). root first ≡ root x.0) (i, p) rest met m
                ] in
          (
            root,
            weaken-IsJoined ps (0 + length rest) (suc (length rest)) _ root (omega arith) s,
            λ i j p q ip jq ep eq. sym (at_first i p ip ep) ∙ at_first j q jq eq,
          )

  -- The forest behind the loops over the empty proposals and over the files.
  abbrev pub linked_trees : Links
  linked_trees =
      let fuel = fuel_for (items ps) in
      link_all fuel (items ps) ([], union_empty fuel (keep lacks_files (items ps)) (λ i. i))

  abbrev pub IsDecided : (ℕ → ℕ) → Type 0
  IsDecided root =
      (i j : ℕ) (p q : Proposal)
      → IsItem ps i p
      → IsItem ps j q
      → (Linked ps p q) ↔ (root i ≡ root j)

  -- Where the proposals without files meet and each file has an owner in the tree of each of its
  -- proposals, linked proposals share a tree.
  Linked-root :
      (root : ℕ → ℕ) (owners : List (String × ℕ))
      → MeetEmpty root
      → All (λ (x : ℕ × Proposal). All (IsOwned root owners x.0) x.1.files) (items ps)
      → (p q : Proposal) → Linked ps p q
      → (i j : ℕ) → IsItem ps i p
      → IsItem ps j q
      → root i ≡ root j
  unfolding MeetEmpty
  Linked-root root owners empty owned p q l i j ip jq = go l i j ip jq
    where
      shared :
          (i j : ℕ) (p q : Proposal) (f : String)
          → IsItem ps i p
          → IsItem ps j q
          → In f p.files
          → In f q.files
          → root i ≡ root j
      shared i j p q f ip jq fp fq =
          let (o, e, r) =
            All-In (IsOwned root owners i) f p.files (All-In _ (i, p) (items ps) owned ip) fp in
          let (o', e', r') =
            All-In (IsOwned root owners j) f q.files (All-In _ (j, q) (items ps) owned jq) fq in
          let owner : o ≡ o' = ground (arith, e, e') in sym r ∙ ap root owner ∙ r'

      of_same : (i j : ℕ) (p : Proposal) → IsItem ps i p → IsItem ps j p → root i ≡ root j
      of_same i j p ip jp = by_files p.files refl
        where
          by_files : (fs : List String) → p.files ≡ fs → root i ≡ root j
          by_files [] e = empty i j p p ip jp e e
          by_files (f ∷ fs) e =
              let m = subst (λ gs. In f gs) (sym e) (inl refl) in shared i j p p f ip jp m m

      go :
          {p q : Proposal}
          → Linked ps p q
          → (i j : ℕ) → IsItem ps i p
          → IsItem ps j q
          → root i ≡ root j
      go (same {p}) i j ip jq = of_same i j p ip jq
      go (without_files {p} {q} e f) i j ip jq = empty i j p q ip jq e f
      go (share {p} {q} f m n) i j ip jq = shared i j p q f ip jq m n
      go (back l) i j ip jq = sym (go l j i jq ip)
      go (through {p} {q} {r} m l k) i j ip jr =
          let (n, iq) = enumerate-In 0 q ps m in go l i n ip iq ∙ go k n j iq jr

  pub linked_trees-IsDecided :
      (root : ℕ → ℕ) × IsJoined ps (length ps + file_count (items ps)) linked_trees.1 root
      × IsDecided root
  unfolding MeetEmpty lookup
  linked_trees-IsDecided =
      let es = keep lacks_files (items ps) in
      let fuel = fuel_for (items ps) in
      let parent = union_empty fuel es (λ i. i) in
      let (root, s, met) = union_empty-IsJoined fuel (omega (arith, few)) in
      let first : IsLinked ps (length es) ([], parent) root = record {
        joined_trees = s;
        sources = λ f o e. absurd (none_yet f o e);
      } in
      let (root', s', x, owned) =
        link_all-IsOwned ps fuel (length es) (items ps) ([], parent) root (omega (arith, few))
          (All-of_In _ (items ps) (λ y m. m)) first in
      let met' : MeetEmpty root' = λ i j p q ip jq ep eq. x.coarser i j (met i j p q ip jq ep eq) in
      (
        root',
        weaken-IsJoined ps (length es + file_count (items ps)) (length ps + file_count (items ps))
            linked_trees.1 root' (omega (arith, few, length_items 0 ps)) s'.joined_trees,
        λ i j p q ip jq. (
          λ l. Linked-root root' linked_trees.0 met' owned p q l i j ip jq,
          s'.joined_trees.sound i j p q ip jq,
        ),
      )
    where
      few : length (keep lacks_files (items ps)) ≤ length (items ps)
      few = omega (arith, length-keep lacks_files (items ps))

      none_yet : (f : String) (o : ℕ) → lookup f [] ≡ some o → ⊥
      none_yet f o e = cc
