-- ===== src/Moriarty/Processes.antt =====
-- tools/run_moriarty.py: `_descendant_pids`, the descendants of a process by a search in the map from
-- processes to their parents.
use qsol_fed.Base.{
  ℕ, zero, suc, ◌+◌, ◌≡◌, Bool, true, false, ◌&&◌, ◌||◌, not, ◌==◌, List, [], ◌∷◌, length,
  if◌then◌else◌, Option, none, some,
}

-- `x in xs` for a set of process numbers
unfoldable pub member : List ℕ → ℕ → Bool
member [] x = false
member (y ∷ ys) x = y == x || member ys x

-- the pairs of a process and its parent
abbrev pub Parents : Type 0
Parents = List (ℕ × ℕ)

unfoldable pub is_child : Parents → ℕ → ℕ → Bool
is_child [] pid parent = false
is_child ((p, q) ∷ ps) pid parent = (p == pid && q == parent) || is_child ps pid parent

-- one `for` loop: the descendants and the next frontier
unfoldable pub mark : Parents → List ℕ → List ℕ → List ℕ → List ℕ × List ℕ
unfolding member
mark [] frontier descendants next = (descendants, next)
mark ((pid, parent) ∷ ps) frontier descendants next =
    let (seen, new) =
      if member frontier parent && not (member descendants pid)
      then (pid ∷ descendants, pid ∷ next)
      else (descendants, next) in
    mark ps frontier seen new

-- the `while` loop
unfoldable pub search_descendants : ℕ → Parents → List ℕ → List ℕ → Option (List ℕ)
unfolding mark
search_descendants zero ps frontier descendants = none
search_descendants (suc fuel) ps [] descendants = some descendants
search_descendants (suc fuel) ps (x ∷ frontier) descendants =
    let (seen, new) = mark ps (x ∷ frontier) descendants [] in search_descendants fuel ps new seen

unfoldable pub descendant_pids : Parents → ℕ → Option (List ℕ)
unfolding search_descendants
descendant_pids ps root = search_descendants (length ps + 2) ps (root ∷ []) []

-- A descendant is a child of the root or of a descendant.
pub data Descends (ps : Parents) (root : ℕ) : ℕ → Type 0 where
  child : {pid : ℕ} → is_child ps pid root ≡ true → Descends ps root pid
  below :
      {pid parent : ℕ}
      → is_child ps pid parent ≡ true
      → Descends ps root parent
      → Descends ps root pid
