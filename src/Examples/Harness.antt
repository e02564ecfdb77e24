-- ===== src/Examples/Harness.antt =====
-- A run of the harness on a commit that has its three own files, with one attack, whose probe passes.
use qsol_fed.Base.{ℕ, ◌≡◌, refl, true, false, List, [], ◌∷◌, ◌++◌, all, replicate, some, none}
use qsol_fed.Base.Result.{Result, ok, err, ◌>>=◌, raise_if}
use qsol_fed.Base.Int.{within}
use qsol_fed.Base.Text.{Text, codes, text_eq, text_lt, contains}
use qsol_fed.Base.Utf8.{encode}
use qsol_fed.Json.{Fields, str, arr, nil, cons, end, field}
use qsol_fed.Canonical.Normalize
use qsol_fed.Canonical.Serialize.{serialize}
use qsol_fed.Sdk.Binding.{assign}
use qsol_fed.Examples.{toy}
use qsol_fed.Examples.Tree.{toy_sha1, toy_history}
use qsol_fed.Examples.Reports.{passed_probe}
use qsol_fed.Moriarty.Registry.{git_commit_exists}
use qsol_fed.Moriarty.Shapes.{value_at, matches_target}
use qsol_fed.Moriarty.Replay.{counterexample_record}
use qsol_fed.Moriarty.Assemble.{Results, run_probes, ordered_probe_ids, run_harness, succeeded}
use qsol_fed.Tree.Objects.{Repository}
use qsol_fed.Tree.Files.{verified_commit_files}
use qsol_fed.Tree.Collision.{repository_of}
use qsol_fed.Tree.Worktree.{Stat, Worktree, tracked_tree_clean}
use qsol_fed.Examples.Probes.{first_attack, failed_run}
use qsol_fed.Phase9.Composed.{Concluded, run_harness-Concluded}

abbrev target_id : Text
target_id = replicate 40 b'8'

abbrev blob_entry : Text → List ℕ
blob_entry name = codes "100644 " ++ name ++ (0 ∷ replicate 20 0x99)

abbrev tools_tree : List ℕ
tools_tree =
    blob_entry (codes "moriarty_isolation.py")
    ++ blob_entry (codes "qsol_canonical.py")
    ++ blob_entry (codes "run_moriarty.py")

abbrev root_tree : List ℕ
root_tree = codes "40000 tools" ++ (0 ∷ replicate 20 0x22)

abbrev stored : Text → Text → List ℕ
stored kind id = elim (text_eq kind (codes "commit")) [
  | true ↦ codes "tree " ++ replicate 40 b'8' ++ (10 ∷ [])
  | false ↦ elim (text_eq kind (codes "tree")) [
    | true ↦ elim (text_eq id (replicate 40 b'8')) [ true ↦ root_tree | false ↦ tools_tree ]
    | false ↦ codes "hi"
  ]
]

abbrev store : Repository
store =
    repository_of toy_sha1 (λ kind id. record { chunks = stored kind id ∷ []; succeeded = true })
      toy_history

abbrev index_line : Text → List ℕ
index_line name = codes "100644 " ++ replicate 40 b'9' ++ codes " 0\ttools/" ++ name ++ (0 ∷ [])

abbrev own_stat : Stat
own_stat = record { dev = 1; ino = 2; size = 2; mtime_ns = 3; regular = true; executable = false }

abbrev workspace : Worktree
workspace = record {
  rev_parse_head = record { chunks = (target_id ++ (10 ∷ [])) ∷ []; succeeded = true };
  ls_files_flags = record { chunks = codes "H tools/run_moriarty.py\n" ∷ []; succeeded = true };
  ls_files_index = record {
    chunks =
        index_line (codes "moriarty_isolation.py")
        ∷ index_line (codes "qsol_canonical.py")
        ∷ index_line (codes "run_moriarty.py")
        ∷ [];
    succeeded = true;
  };
  candidate = λ path. record {
    initial = some own_stat;
    symlink = false;
    open_file = some (record { opened = own_stat; reads = codes "hi" ∷ []; final = own_stat });
  };
  read_bytes = λ path. some (codes "hi");
  is_lower = λ c. false;
}

workspace-clean : tracked_tree_clean store workspace ≡ true
unfolding tracked_tree_clean verified_commit_files text_eq contains all ◌>>=◌ raise_if
    git_commit_exists matches_target
workspace-clean = refl

abbrev attack : Fields
attack =
    field (codes "id") (str (codes "MOR-001"))
      (field (codes "probe_ids") (arr (cons (str (codes "rust_all")) nil)) end)

abbrev harness_run : Result Fields
harness_run =
    run_harness toy store workspace (λ probe_id index. ok (passed_probe probe_id))
      (λ item index label commit. none) target_id end (attack ∷ []) []

abbrev run_report : Fields
run_report = elim harness_run [ ok report ↦ report | err _ ↦ end ]

harness_run-ok : harness_run ≡ ok run_report
unfolding run_harness tracked_tree_clean verified_commit_files text_eq text_lt contains all ◌>>=◌
    raise_if git_commit_exists matches_target assign counterexample_record serialize encode
    Normalize.nfc within value_at
harness_run-ok = refl

run_harness-Concluded_example :
    (results : Results) × (run_probes
        (λ probe_id index. ok (passed_probe probe_id))
        (ordered_probe_ids (attack ∷ []) [])
        0
      ≡ ok results)
    × Concluded toy store workspace
        (λ probe_id index. ok (passed_probe probe_id))
        (λ item index label commit. none)
        target_id
        (attack ∷ [])
        []
        (ordered_probe_ids (attack ∷ []) [])
        results
        run_report
run_harness-Concluded_example =
    run_harness-Concluded toy store workspace (λ probe_id index. ok (passed_probe probe_id))
      (λ item index label commit. none) target_id end (attack ∷ []) [] run_report harness_run-ok

-- the same run, with an attack of the corpus whose probe fails
abbrev failing_harness_run : Result Fields
failing_harness_run =
    run_harness toy store workspace (λ probe_id index. ok failed_run)
      (λ item index label commit. none) target_id end (first_attack ∷ []) []

abbrev failure_report : Fields
failure_report = elim failing_harness_run [ ok report ↦ report | err _ ↦ end ]
