-- ===== src/Harness/Contract.antt =====
-- src/harness/verifier: the artifacts of the parsers, and the contract over them. A reason and a
-- warning carry the numbers that the source formats into its text; the items of an artifact's lists
-- are any type, since only their number is read; the JSON form of the artifacts is left out.
pub mod Passed
use Prim.Native.String.{String}
use kis_autotrader.Common.{
  ℕ, Bool, true, false, not, ◌&&◌, ◌||◌, ltb, ◌==◌, Option, none, some, List, [], ◌∷◌, ◌++◌, length,
  if◌then◌else◌,
}
use kis_autotrader.Python.{is_some}

pub record ChangedFile : Type 0 where
  pub path : String
  pub additions : ℕ
  pub deletions : ℕ

pub record DiffSummary : Type 0 where
  pub files : List ChangedFile

pub record RuffArtifact (V : Type 0) : Type 0 where
  pub violations : List V
  pub parse_error : Option String

pub record PytestArtifact : Type 0 where
  pub tests : ℕ
  pub failures : ℕ
  pub errors : ℕ
  pub skipped : ℕ
  pub parse_error : Option String

pub record MypyArtifact (V : Type 0) : Type 0 where
  pub errors : List V
  pub files_checked : ℕ
  pub parse_error : Option String
  pub passed_override : Option Bool

-- The `passed` of each artifact.
abbrev pub pytest_passed : PytestArtifact → Bool
pytest_passed a = not (is_some a.parse_error) && (a.failures == 0) && (a.errors == 0)

abbrev pub ruff_passed : {V : Type 0} → RuffArtifact V → Bool
ruff_passed a = not (is_some a.parse_error) && (length a.violations == 0)

abbrev pub mypy_passed : {V : Type 0} → MypyArtifact V → Bool
mypy_passed a = elim a.passed_override [
  | some override ↦ override
  | none ↦ not (is_some a.parse_error) && (length a.errors == 0) && ltb 0 a.files_checked
]

abbrev pub file_count : DiffSummary → ℕ
file_count d = length d.files

abbrev pub exceeds_threshold : ℕ → DiffSummary → Bool
exceeds_threshold threshold d = ltb threshold (file_count d)

pub data Reason : Type 0 where
  pytest_missing mypy_missing ruff_missing diff_missing : Reason
  pytest_failed : (failures errors : ℕ) → Reason
  mypy_failed ruff_failed : (count : ℕ) → Reason

pub data Warning : Type 0 where
  many_files : (count threshold : ℕ) → Warning

pub record ContractResult : Type 0 where
  pub passed : Bool
  pub reasons : List Reason
  pub warnings : List Warning

abbrev pub pytest_reasons : Option PytestArtifact → List Reason
pytest_reasons none = Reason.pytest_missing ∷ []
pytest_reasons (some a) =
    if not (pytest_passed a) then Reason.pytest_failed a.failures a.errors ∷ [] else []

abbrev pub mypy_reasons : {V : Type 0} → Option (MypyArtifact V) → List Reason
mypy_reasons none = Reason.mypy_missing ∷ []
mypy_reasons (some a) =
    if not (mypy_passed a) then Reason.mypy_failed (length a.errors) ∷ [] else []

abbrev pub ruff_reasons : {V : Type 0} → Option (RuffArtifact V) → List Reason
ruff_reasons none = Reason.ruff_missing ∷ []
ruff_reasons (some a) =
    if not (ruff_passed a) then Reason.ruff_failed (length a.violations) ∷ [] else []

abbrev pub lacks_files : Option DiffSummary → Bool
lacks_files none = true
lacks_files (some d) = file_count d == 0

abbrev pub diff_reasons : Option DiffSummary → List Reason
diff_reasons d = if lacks_files d then Reason.diff_missing ∷ [] else []

abbrev pub diff_warnings : ℕ → Option DiffSummary → List Warning
diff_warnings threshold none = []
diff_warnings threshold (some d) =
    if file_count d == 0
    then []
    else if exceeds_threshold threshold d
    then Warning.many_files (file_count d) threshold ∷ []
    else []

abbrev pub is_empty : {A : Type 0} → List A → Bool
is_empty [] = true
is_empty (x ∷ xs) = false

-- `evaluate_contract`
unfoldable pub evaluate_contract :
    {U V : Type 0}
    → Option PytestArtifact
    → Option (MypyArtifact U)
    → Option (RuffArtifact V)
    → Option DiffSummary
    → ℕ
    → ContractResult
evaluate_contract pytest mypy ruff diff threshold =
    let reasons =
      pytest_reasons pytest ++ mypy_reasons mypy ++ ruff_reasons ruff ++ diff_reasons diff in
    record { passed = is_empty reasons; reasons = reasons; warnings = diff_warnings threshold diff }
