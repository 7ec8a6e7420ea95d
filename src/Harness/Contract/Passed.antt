-- ===== src/Harness/Contract/Passed.antt =====
-- What a contract that passed shows of its artifacts.
use kis_autotrader.Common.{
  ℕ, ◌<◌, ◌≡◌, ap, ◌↔◌, refl, true, Option, none, some, List, [], ◌∷◌, ◌++◌, arith,
}
use kis_autotrader.Harness.Contract.{
  DiffSummary, RuffArtifact, PytestArtifact, MypyArtifact, pytest_passed, mypy_passed, ruff_passed,
  pytest_reasons, mypy_reasons, ruff_reasons, diff_reasons, file_count, is_empty, evaluate_contract,
}

append_empty :
    {A : Type 0} (xs ys : List A)
    → (is_empty (xs ++ ys) ≡ true) ↔ ((is_empty xs ≡ true) × (is_empty ys ≡ true))
append_empty [] ys = ground arith
append_empty (x ∷ xs) ys = ground arith

pytest_reasons_lem :
    (o : Option PytestArtifact)
    → (is_empty (pytest_reasons o) ≡ true)
      ↔ ((a : PytestArtifact) × (o ≡ some a) × (pytest_passed a ≡ true))
pytest_reasons_lem none = (λ h. absurd (ground arith), λ (a, e, h). absurd (ground arith))
pytest_reasons_lem (some a) = (
  λ h. (a, refl, ground arith),
  λ (b, e, h). ground (arith, ap (λ o. is_empty (pytest_reasons o)) e),
)

mypy_reasons_lem :
    {V : Type 0} (o : Option (MypyArtifact V))
    → (is_empty (mypy_reasons o) ≡ true)
      ↔ ((a : MypyArtifact V) × (o ≡ some a) × (mypy_passed a ≡ true))
mypy_reasons_lem none = (λ h. absurd (ground arith), λ (a, e, h). absurd (ground arith))
mypy_reasons_lem (some a) = (
  λ h. (a, refl, ground arith),
  λ (b, e, h). ground (arith, ap (λ o. is_empty (mypy_reasons o)) e),
)

ruff_reasons_lem :
    {V : Type 0} (o : Option (RuffArtifact V))
    → (is_empty (ruff_reasons o) ≡ true)
      ↔ ((a : RuffArtifact V) × (o ≡ some a) × (ruff_passed a ≡ true))
ruff_reasons_lem none = (λ h. absurd (ground arith), λ (a, e, h). absurd (ground arith))
ruff_reasons_lem (some a) = (
  λ h. (a, refl, ground arith),
  λ (b, e, h). ground (arith, ap (λ o. is_empty (ruff_reasons o)) e),
)

diff_reasons_lem :
    (o : Option DiffSummary)
    → (is_empty (diff_reasons o) ≡ true) ↔ ((a : DiffSummary) × (o ≡ some a) × (0 < file_count a))
diff_reasons_lem none = (λ h. absurd (ground arith), λ (a, e, h). absurd (ground arith))
diff_reasons_lem (some a) = (
  λ h. (a, refl, ground arith),
  λ (b, e, h). ground (arith, ap (λ o. is_empty (diff_reasons o)) e),
)

-- A contract passes exactly when the four artifacts are there, pytest's, mypy's and ruff's have
-- passed, and the diff has a file; a large diff only warns.
pub evaluate_contract-passed :
    {U V : Type 0} (pytest : Option PytestArtifact) (mypy : Option (MypyArtifact U))
    (ruff : Option (RuffArtifact V)) (diff : Option DiffSummary) (threshold : ℕ)
    → ((evaluate_contract pytest mypy ruff diff threshold).passed ≡ true) ↔ (
        ((p : PytestArtifact) × (pytest ≡ some p) × (pytest_passed p ≡ true))
        × ((m : MypyArtifact U) × (mypy ≡ some m) × (mypy_passed m ≡ true))
        × ((r : RuffArtifact V) × (ruff ≡ some r) × (ruff_passed r ≡ true))
        × ((d : DiffSummary) × (diff ≡ some d) × (0 < file_count d)))
unfolding evaluate_contract
evaluate_contract-passed pytest mypy ruff diff threshold =
    let (p, p') = pytest_reasons_lem pytest in
    let (m, m') = mypy_reasons_lem mypy in
    let (r, r') = ruff_reasons_lem ruff in
    let (d, d') = diff_reasons_lem diff in
    let reasons = pytest_reasons pytest ++ mypy_reasons mypy ++ ruff_reasons ruff in
    let (all, all') = append_empty reasons (diff_reasons diff) in
    let (three, three') =
      append_empty (pytest_reasons pytest ++ mypy_reasons mypy) (ruff_reasons ruff) in
    let (two, two') = append_empty (pytest_reasons pytest) (mypy_reasons mypy) in
    (
      λ h.
          let (before, e) = all h in
          let (before', c) = three before in let (a, b) = two before' in (p a, m b, r c, d e),
      λ (a, b, c, e). all' (three' (two' (p' a, m' b), r' c), d' e),
    )
