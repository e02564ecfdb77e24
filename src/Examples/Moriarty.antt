-- ===== src/Examples/Moriarty.antt =====
-- The capture of a probe's output at concrete chunks, and the descendants of a process.
use qsol_fed.Base.{ℕ, ◌≡◌, ◌↔◌, true, List, [], ◌∷◌, some}
use qsol_fed.Base.Text.{codes}
use qsol_fed.Moriarty.Descendants.{descendant_pids-member_iff}
use qsol_fed.Moriarty.Processes.{Parents, descendant_pids, member, Descends}
use qsol_fed.Moriarty.Output.{read_chunks, fresh_stream, bounded, concat, read_chunks-fresh_stream}

read_chunks-fresh_stream_example :
    read_chunks fresh_stream (codes "ab" ∷ [] ∷ codes "c" ∷ [])
    ≡ bounded (concat (codes "ab" ∷ [] ∷ codes "c" ∷ []))
read_chunks-fresh_stream_example = read_chunks-fresh_stream (codes "ab" ∷ [] ∷ codes "c" ∷ [])

abbrev forks : Parents
forks = (6, 5) ∷ (5, 1) ∷ (7, 9) ∷ []

descendant_pids-member_iff_example :
    (r : List ℕ) × (descendant_pids forks 1 ≡ some r)
    × ((pid : ℕ) → (member r pid ≡ true) ↔ Descends forks 1 pid)
descendant_pids-member_iff_example = descendant_pids-member_iff forks 1
