-- ===== src/Harness/Groups/Owners.antt =====
-- The files' owners, and the trees when every file has been looked at.
use Prim.Native.String.{String}
use text.Mathlib.Text.{◌==◌ as str_eq}
use text.Mathlib.TextPositions.{eq_refl}
use kis_autotrader.Common.{
  ℕ, suc, ◌+◌, ◌≤◌, ◌<◌, ◌≡◌, refl, ap, subst, ◌∙◌, arith, inl, inr, none, some, List, [], ◌∷◌, All,
  All-of_In, In, length, Bool-cases, Option-cases,
}
use kis_autotrader.Common.Dict.{lookup, put, lookup-put}
use kis_autotrader.Common.Texts.{str_eq_path}
use kis_autotrader.Harness.Groups.{Proposal, Links, link_to, link_files, link_all, file_count}
use kis_autotrader.Harness.Groups.Forest.{joined}
use kis_autotrader.Harness.Groups.Joined.{
  Linked, Coarser, Coarser-trans, IsItem, IsJoined, weaken-IsJoined, union-IsJoined, joined-Coarser,
  joined_meets,
}

-- The file has an owner, and the index stands in the owner's tree.
abbrev pub IsOwned : (ℕ → ℕ) → List (String × ℕ) → ℕ → String → Type 0
IsOwned root owners i f = (o : ℕ) × (lookup f owners ≡ some o) × (root o ≡ root i)

-- Trees only grow together, and a file keeps its owner.
pub record Extends (root : ℕ → ℕ) (owners : List (String × ℕ)) (root' : ℕ → ℕ)
    (owners' : List (String × ℕ)) : Type 0 where
  pub coarser : Coarser root root'
  pub keeps : (f : String) (o : ℕ) → lookup f owners ≡ some o → lookup f owners' ≡ some o

pub Extends-trans :
    {r s t : ℕ → ℕ} {a b c : List (String × ℕ)}
    → Extends r a s b
    → Extends s b t c
    → Extends r a t c
Extends-trans h k = record {
  coarser = Coarser-trans h.coarser k.coarser;
  keeps = λ f o e. k.keeps f o (h.keeps f o e);
}

pub IsOwned-later :
    {r s : ℕ → ℕ} {a b : List (String × ℕ)} (i : ℕ) (f : String)
    → Extends r a s b
    → IsOwned r a i f
    → IsOwned s b i f
IsOwned-later i f x (o, e, q) = (o, x.keeps f o e, x.coarser o i q)

module _ (ps : List Proposal) where
  pub record IsLinked (k : ℕ) (links : Links) (root : ℕ → ℕ) : Type 0 where
    pub joined_trees : IsJoined ps k links.1 root
    -- An owner names the file itself.
    pub sources :
        (f : String) (o : ℕ)
        → lookup f links.0 ≡ some o
        → (p : Proposal) × IsItem ps o p × In f p.files

  -- What a part of the loop achieves: the trees are merged further, by the unions counted.
  abbrev Achieves : ℕ → Links → (ℕ → ℕ) → Links → ((ℕ → ℕ) → Type 0) → Type 0
  Achieves k links root links' P =
      (root' : ℕ → ℕ) × IsLinked k links' root' × Extends root links.0 root' links'.0 × P root'

  link_to-IsOwned :
      (fuel k i : ℕ) (p : Proposal) (f : String) (links : Links) (root : ℕ → ℕ)
      → k < fuel
      → IsItem ps i p
      → In f p.files
      → IsLinked k links root
      → let links' = link_to fuel i f (lookup f links.0) links in
        Achieves (suc k) links root links' (λ root'. IsOwned root' links'.0 i f)
  link_to-IsOwned fuel k i p f (owners, parent) root h ip inf s =
      elim (Option-cases (lookup f owners)) [
        | inl fresh ↦ rw fresh (
          root,
          record {
            joined_trees = weaken-IsJoined ps k (suc k) parent root (omega arith) s.joined_trees;
            sources = λ g o e. source_of fresh g o e;
          },
          record { coarser = λ x y q. q; keeps = λ g o e. kept fresh g o e },
          (i, lookup-put f f i owners ∙ rw (eq_refl f) refl, refl),
        )
        | inr (o, e) ↦
            let (q, oq, inq) = s.sources f o e in
            rw e (
              joined root o i,
              record {
                joined_trees =
                    union-IsJoined ps fuel k parent root o i q p h oq ip (Linked.share f inq inf)
                      s.joined_trees;
                sources = s.sources;
              },
              record { coarser = joined-Coarser root o i; keeps = λ g n r. r },
              (o, e, joined_meets root o i),
            )
      ]
    where
      kept :
          lookup f owners ≡ none
          → (g : String) (o : ℕ) → lookup g owners ≡ some o
          → lookup g (put f i owners) ≡ some o
      kept fresh g o e = elim (Bool-cases (str_eq f g)) [
        | inl q ↦ absurd (ground (arith, e, fresh, ap (λ x. lookup x owners) (str_eq_path f g q)))
        | inr q ↦ lookup-put g f i owners ∙ rw q e
      ]

      source_of :
          lookup f owners ≡ none
          → (g : String) (o : ℕ) → lookup g (put f i owners) ≡ some o
          → (p' : Proposal) × IsItem ps o p' × In g p'.files
      source_of fresh g o e = elim (Bool-cases (str_eq f g)) [
        | inl q ↦
            let at_o : i ≡ o = ground (arith, e, lookup-put g f i owners, q) in
            (
              p,
              subst (λ n. IsItem ps n p) at_o ip,
              subst (λ x. In x p.files) (str_eq_path f g q) inf,
            )
        | inr q ↦ s.sources g o (ground (arith, e, lookup-put g f i owners, q))
      ]

  link_files-IsOwned :
      (fuel k i : ℕ) (p : Proposal) (fs : List String) (links : Links) (root : ℕ → ℕ)
      → k + length fs ≤ fuel
      → IsItem ps i p
      → All (λ f. In f p.files) fs
      → IsLinked k links root
      → let links' = link_files fuel i fs links in
        Achieves (k + length fs) links root links' (λ root'. All (IsOwned root' links'.0 i) fs)
  unfolding link_files
  link_files-IsOwned fuel k i p [] links root h ip all s = (
    root,
    record {
      joined_trees = weaken-IsJoined ps k (k + 0) links.1 root (omega arith) s.joined_trees;
      sources = s.sources;
    },
    record { coarser = λ x y q. q; keeps = λ f o e. e },
    tt,
  )
  link_files-IsOwned fuel k i p (f ∷ fs) links root h ip (inf, all) s =
      let (r, s', x, own) = link_to-IsOwned fuel k i p f links root (omega arith) ip inf s in
      let (r', s'', x', owns) =
        link_files-IsOwned fuel (suc k) i p fs (link_to fuel i f (lookup f links.0) links) r
          (omega arith) ip all s' in
      (
        r',
        record {
          joined_trees =
              weaken-IsJoined ps (suc k + length fs) (k + suc (length fs)) _ r' (omega arith)
                s''.joined_trees;
          sources = s''.sources;
        },
        Extends-trans x x',
        (IsOwned-later i f x' own, owns),
      )

  all-IsOwned_later :
      {r s : ℕ → ℕ} {a b : List (String × ℕ)} (i : ℕ) (fs : List String)
      → Extends r a s b
      → All (IsOwned r a i) fs
      → All (IsOwned s b i) fs
  all-IsOwned_later i [] x all = tt
  all-IsOwned_later i (f ∷ fs) x (own, owns) =
      (IsOwned-later i f x own, all-IsOwned_later i fs x owns)

  -- Behind the loop each file of each proposal has an owner in the proposal's tree.
  pub link_all-IsOwned :
      (fuel k : ℕ) (rest : List (ℕ × Proposal)) (links : Links) (root : ℕ → ℕ)
      → k + file_count rest ≤ fuel
      → All (λ (x : ℕ × Proposal). IsItem ps x.0 x.1) rest
      → IsLinked k links root
      → let links' = link_all fuel rest links in
        Achieves
          (k + file_count rest)
          links
          root
          links'
          (λ root'. All (λ (x : ℕ × Proposal). All (IsOwned root' links'.0 x.0) x.1.files) rest)
  unfolding link_all
  link_all-IsOwned fuel k [] links root h all s = (
    root,
    record {
      joined_trees = weaken-IsJoined ps k (k + 0) links.1 root (omega arith) s.joined_trees;
      sources = s.sources;
    },
    record { coarser = λ x y q. q; keeps = λ f o e. e },
    tt,
  )
  link_all-IsOwned fuel k ((i, p) ∷ rest) links root h (ip, all) s =
      let (r, s', x, own) =
        link_files-IsOwned fuel k i p p.files links root (omega arith) ip
          (All-of_In (λ f. In f p.files) p.files (λ a m. m)) s in
      let (r', s'', x', owns) =
        link_all-IsOwned fuel (k + length p.files) rest (link_files fuel i p.files links) r
          (omega arith) all s' in
      (
        r',
        record {
          joined_trees =
              weaken-IsJoined ps (k + length p.files + file_count rest)
                (k + (length p.files + file_count rest)) _ r' (omega arith) s''.joined_trees;
          sources = s''.sources;
        },
        Extends-trans x x',
        (all-IsOwned_later i p.files x' own, owns),
      )
