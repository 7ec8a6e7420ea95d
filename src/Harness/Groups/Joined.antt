-- ===== src/Harness/Groups/Joined.antt =====
-- Which proposals stand in one tree when the loops of the grouping are done.
use Prim.Native.String.{String}
use kis_autotrader.Common.{
  ℕ, suc, ◌+◌, ◌≤◌, ◌<◌, ◌≡◌, sym, ap, ◌∙◌, arith, inl, inr, ◌==◌, List, [], ◌∷◌, All, In, length,
  Bool-cases, ==_iff, if◌then◌else◌,
}
use kis_autotrader.Harness.Groups.{Proposal, Parents, union, union_all, enumerate}
use kis_autotrader.Harness.Groups.Forest.{IsForest, joined, union-IsForest}

module _ (ps : List Proposal) where
  -- Two proposals that belong together: both name no file, or they share one, or there is a chain
  -- of such proposals between them.
  pub data Linked : Proposal → Proposal → Type 0 where
    same : {p : Proposal} → Linked p p
    without_files : {p q : Proposal} → p.files ≡ [] → q.files ≡ [] → Linked p q
    share : {p q : Proposal} (f : String) → In f p.files → In f q.files → Linked p q
    back : {p q : Proposal} → Linked p q → Linked q p
    through : {p q r : Proposal} → In q ps → Linked p q → Linked q r → Linked p r

-- Indices of one tree stay in one.
abbrev pub Coarser : (ℕ → ℕ) → (ℕ → ℕ) → Type 0
Coarser root root' = (i j : ℕ) → root i ≡ root j → root' i ≡ root' j

pub In-enumerate :
    (n i : ℕ) (p : Proposal) (ps : List Proposal) → In (i, p) (enumerate n ps) → In p ps
In-enumerate n i p [] h = absurd h
In-enumerate n i p (q ∷ ps) (inl e) = inl (ap (λ (x : ℕ × Proposal). x.1) e)
In-enumerate n i p (q ∷ ps) (inr h) = inr (In-enumerate (suc n) i p ps h)

pub enumerate-In :
    (n : ℕ) (p : Proposal) (ps : List Proposal) → In p ps → (i : ℕ) × In (i, p) (enumerate n ps)
enumerate-In n p [] h = absurd h
enumerate-In n p (q ∷ ps) (inl e) = (n, inl (ap (λ x. (n, x)) e))
enumerate-In n p (q ∷ ps) (inr h) = let (i, m) = enumerate-In (suc n) p ps h in (i, inr m)

module _ (ps : List Proposal) where
  abbrev pub items : List (ℕ × Proposal)
  items = enumerate 0 ps

  abbrev pub IsItem : ℕ → Proposal → Type 0
  IsItem i p = In (i, p) items

  -- A forest whose trees hold linked proposals only.
  pub record IsJoined (k : ℕ) (parent : Parents) (root : ℕ → ℕ) : Type 0 where
    pub dist : ℕ → ℕ
    pub forest : IsForest root dist k parent
    pub sound :
        (i j : ℕ) (p q : Proposal) → IsItem i p → IsItem j q → root i ≡ root j → Linked ps p q

  pub weaken-IsJoined :
      (k m : ℕ) (parent : Parents) (root : ℕ → ℕ)
      → k ≤ m
      → IsJoined k parent root
      → IsJoined m parent root
  weaken-IsJoined k m parent root h s = record {
    dist = s.dist;
    forest = record {
      fixed = s.forest.fixed;
      same_root = s.forest.same_root;
      own_root = s.forest.own_root;
      falls = s.forest.falls;
      bounded = λ x. omega (arith, s.forest.bounded x);
    };
    sound = s.sound;
  }

  -- A union of two linked proposals.
  pub union-IsJoined :
      (fuel k : ℕ) (parent : Parents) (root : ℕ → ℕ) (a b : ℕ) (pa pb : Proposal)
      → k < fuel
      → IsItem a pa
      → IsItem b pb
      → Linked ps pa pb
      → IsJoined k parent root
      → IsJoined (suc k) (union fuel parent a b) (joined root a b)
  union-IsJoined fuel k parent root a b pa pb h ia ib l s = record {
    dist = _;
    forest = union-IsForest fuel parent a b s.forest h;
    sound = λ i j p q ip jq e. elim (Bool-cases (root i == root a)) [
      | inl u ↦ elim (Bool-cases (root j == root a)) [
        | inl v ↦ s.sound i j p q ip jq ((==_iff _ _).0 u ∙ sym ((==_iff _ _).0 v))
        | inr v ↦
            Linked.through (In-enumerate 0 a pa ps ia) (s.sound i a p pa ip ia ((==_iff _ _).0 u)) (
              Linked.through (In-enumerate 0 b pb ps ib) l
                (s.sound b j pb q ib jq (ground (arith, e, u, v))))
      ]
      | inr u ↦ elim (Bool-cases (root j == root a)) [
        | inl v ↦
            Linked.through (In-enumerate 0 b pb ps ib)
              (s.sound i b p pb ip ib (ground (arith, e, u, v)))
              (Linked.through (In-enumerate 0 a pa ps ia) (Linked.back l)
                (s.sound a j pa q ia jq (sym ((==_iff _ _).0 v))))
        | inr v ↦ s.sound i j p q ip jq (ground (arith, e, u, v))
      ]
    ];
  }

pub joined-Coarser : (root : ℕ → ℕ) (a b : ℕ) → Coarser root (joined root a b)
joined-Coarser root a b i j e = ap (λ r. if r == root a then root b else r) e

pub joined_meets : (root : ℕ → ℕ) (a b : ℕ) → joined root a b a ≡ joined root a b b
joined_meets root a b = ground arith

pub Coarser-trans : {r s t : ℕ → ℕ} → Coarser r s → Coarser s t → Coarser r t
Coarser-trans h k i j e = k i j (h i j e)

module _ (ps : List Proposal) where
  -- The proposals without files come into one tree.
  pub union_all-IsJoined :
      (fuel k : ℕ) (parent : Parents) (root : ℕ → ℕ) (first : ℕ) (pf : Proposal)
      (rest : List (ℕ × Proposal))
      → k + length rest ≤ fuel
      → IsItem ps first pf
      → pf.files ≡ []
      → All (λ (x : ℕ × Proposal). IsItem ps x.0 x.1 × (x.1.files ≡ [])) rest
      → IsJoined ps k parent root
      → (root' : ℕ → ℕ) × IsJoined ps (k + length rest) (union_all fuel first rest parent) root'
        × Coarser root root'
        × All (λ (x : ℕ × Proposal). root' first ≡ root' x.0) rest
  unfolding union_all
  union_all-IsJoined fuel k parent root first pf [] h ip e all s =
      (root, weaken-IsJoined ps k (k + 0) parent root (omega arith) s, λ i j q. q, tt)
  union_all-IsJoined fuel k parent root first pf ((i, p) ∷ rest) h ip e ((ii, ei), all) s =
      let s' =
        union-IsJoined ps fuel k parent root first i pf p (omega arith) ip ii
          (Linked.without_files e ei) s in
      let (root', s'', c, met) =
        union_all-IsJoined fuel (suc k) (union fuel parent first i) (joined root first i) first pf
          rest (omega arith) ip e all s' in
      (
        root',
        weaken-IsJoined ps (suc k + length rest) (k + suc (length rest)) _ root' (omega arith) s'',
        Coarser-trans (joined-Coarser root first i) c,
        (c first i (joined_meets root first i), met),
      )
