-- ===== src/Phase9/Conclusion.antt =====
-- The conclusion of a report of the harness, and the state of the working tree behind the last probe.
use qsol_fed.Base.{ℕ, ◌≡◌, refl, Bool, true, false, ◌&&◌, ◌||◌, not, ◌==◌, List, [], arith}
use qsol_fed.Base.Result.{ok, ◌>>=◌, raise_if, >>=-eq-ok, raise_if-eq-ok}
use qsol_fed.Base.Text.{Text, text_eq}
use qsol_fed.Json.{Items, Fields, bool, lookup}
use qsol_fed.Sdk.Fields.{all_items, is_literal, is_false}
use qsol_fed.Moriarty.Shapes.{value_at}
use qsol_fed.Moriarty.Assemble.{report_record, unchanged}
use qsol_fed.Tree.Objects.{Repository}
use qsol_fed.Tree.Worktree.{Worktree, git_head, tracked_tree_clean, harness_files_match_target}
use qsol_fed.Tree.Clean.{CleanTree, tracked_tree_clean-CleanTree}
use qsol_fed.Phase9.Evidence.{is_same_bool, passes, validate_conclusion}

same_bool-accepted : (b : Bool) → is_same_bool b (bool b) ≡ true
same_bool-accepted true = refl
same_bool-accepted false = refl

-- a report with the verdict that the gate computes passes its conclusion
pub conclusion-holds :
    (target corpus_ref : Text) (results replays counterexamples : List Fields) (shown n : ℕ)
    (graduated : Bool) (tested replayed : Items)
    → (all_items passes tested && all_items passes replayed && n == 0) ≡ graduated
    → validate_conclusion
        (report_record target corpus_ref results replays counterexamples shown graduated)
        tested
        replayed
        n
      ≡ ok tt
unfolding validate_conclusion report_record value_at lookup text_eq is_literal is_false raise_if
    ◌>>=◌
conclusion-holds target corpus_ref results replays counterexamples shown n graduated tested replayed
      h =
    rw (h, same_bool-accepted graduated)

pub same_verdict :
    (x y z x' y' z' : Bool) → x ≡ x' → y ≡ y' → z ≡ z' → (x && y && z) ≡ (z' && (x' && y'))
same_verdict x y z x' y' z' a b c = rw (a, b, c) (reorder x' y' z')
  where
    reorder : (x y z : Bool) → (x && y && z) ≡ (z && (x && y))
    reorder x y z = ground arith

pub unchanged-clean :
    (repository : Repository) (worktree : Worktree) (target : Text) {u : Unit {0}}
    → unchanged repository worktree target ≡ ok u
    → CleanTree repository worktree
unfolding unchanged
unchanged-clean repository worktree target h =
    let (head, at, h1) = >>=-eq-ok (git_head worktree.rev_parse_head) _ h in
    let kept =
      raise_if-eq-ok
        (not (text_eq head target)
          || (not (tracked_tree_clean repository worktree)
              || not (harness_files_match_target repository worktree target [])))
        _ h1 in
    tracked_tree_clean-CleanTree repository worktree (ground arith)
