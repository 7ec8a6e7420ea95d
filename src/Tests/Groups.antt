-- ===== src/Tests/Groups.antt =====
-- src/harness/dependency.py: five proposals, of which two share a file with a third.
use Prim.Native.String.{String}
use kis_autotrader.Common.{◌≡◌, refl, List, [], ◌∷◌}
use kis_autotrader.Harness.Groups.{Proposal, compute_independent_groups}
use kis_autotrader.Harness.Groups.Partition.{IsPartition, compute_independent_groups-IsPartition}

abbrev proposal : String → List String → Proposal
proposal path files = record { path = path; files = files }

abbrev proposals : List Proposal
proposals =
    proposal "e.md" ("engine.py" ∷ [])
    ∷ proposal "d.md" []
    ∷ proposal "c.md" ("risk.py" ∷ "engine.py" ∷ [])
    ∷ proposal "b.md" []
    ∷ proposal "a.md" ("risk.py" ∷ [])
    ∷ []

groups_computed :
    compute_independent_groups proposals
    ≡ (proposal "a.md" ("risk.py" ∷ [])
        ∷ proposal "c.md" ("risk.py" ∷ "engine.py" ∷ [])
        ∷ proposal "e.md" ("engine.py" ∷ [])
        ∷ [])
      ∷ (proposal "b.md" [] ∷ proposal "d.md" [] ∷ [])
      ∷ []
unfolding compute_independent_groups
groups_computed = refl

compute_independent_groups-IsPartition_example :
    IsPartition proposals (compute_independent_groups proposals)
compute_independent_groups-IsPartition_example = compute_independent_groups-IsPartition proposals
