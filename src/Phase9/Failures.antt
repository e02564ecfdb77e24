-- ===== src/Phase9/Failures.antt =====
-- A probe that fails in a run of the harness, in its report.
use qsol_fed.Base.Result.{Result}
use qsol_fed.Base.Text.{Text}
use qsol_fed.Platform.{Platform}
use qsol_fed.Tree.Worktree.{Worktree}
