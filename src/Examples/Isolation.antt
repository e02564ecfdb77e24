-- ===== src/Examples/Isolation.antt =====
-- A kernel that runs the filters, and the policy on it.
use Prim.Native.Nat.{bit_and}
use qsol_fed.Base.{
  ℕ, zero, suc, ◌≡◌, ◌↔◌, refl, true, false, ◌&&◌, ◌==◌, List, [], ◌∷◌, drop, if◌then◌else◌,
}
use qsol_fed.Base.Result.{ok}
use qsol_fed.Isolation.Filter.{
  SockFilter, bpf_ld_w_abs, bpf_jmp_jeq_k, bpf_ret_k, Call, Kernel, permits,
}
use qsol_fed.Isolation.Policy.{x86_64, apply_network_seccomp_policy}
use qsol_fed.Isolation.Enforced.{
  is_applicable, apply_network_seccomp_policy-permits, apply_network_seccomp_policy-eq_ok_iff,
}
use qsol_fed.Isolation.Admits.{admits_network, admits_handles}

-- the instructions to skip, and the accumulator, behind an instruction
abbrev advance : SockFilter → Call → ℕ → ℕ × ℕ
advance i c a =
    if i.code == bpf_ld_w_abs
    then (0, c i.k)
    else if i.code == bpf_jmp_jeq_k
    then (if a == i.k then i.jt else i.jf, a)
    else (if bit_and a i.k == 0 then i.jf else i.jt, a)

execute : ℕ → List SockFilter → Call → ℕ → ℕ
execute skip [] c a = 0
execute (suc skip) (i ∷ rest) c a = execute skip rest c a
execute zero (i ∷ rest) c a =
    let (skip, b) = advance i c a in
    let later = execute skip rest c b in if i.code == bpf_ret_k then i.k else later

execute-drop :
    (n : ℕ) (rest : List SockFilter) (c : Call) (a : ℕ)
    → execute n rest c a ≡ execute zero (drop n rest) c a
unfolding execute
execute-drop zero rest c a = refl
execute-drop (suc n) [] c a = refl
execute-drop (suc n) (i ∷ rest) c a = execute-drop n rest c a

toy_kernel : Kernel
unfolding execute
toy_kernel = record {
  run = execute zero;
  run-load = λ offset rest c a. refl;
  run-equal = λ jt jf k rest c a. execute-drop (if a == k then jt else jf) rest c a;
  run-bits = λ jt jf k rest c a. execute-drop (if bit_and a k == 0 then jf else jt) rest c a;
  run-return = λ k rest c a. refl;
}

-- `kill` on x86_64
abbrev kill_call : Call
kill_call offset = if offset == 4 then 0xC000003E else (if offset == 0 then 62 else 0)

x86_64-applies : (is_applicable x86_64 (true, true) (true, true)) ≡ true
x86_64-applies = refl

abbrev installed : List (List SockFilter)
installed = ((apply_network_seccomp_policy-eq_ok_iff x86_64 (true, true) (true, true) []).1 refl).0

installed-apply : apply_network_seccomp_policy x86_64 (true, true) (true, true) [] ≡ ok installed
installed-apply =
    ((apply_network_seccomp_policy-eq_ok_iff x86_64 (true, true) (true, true) []).1 refl).1

apply_network_seccomp_policy-permits_example : permits toy_kernel installed kill_call ≡ (
    admits_handles x86_64 kill_call
    && (admits_network x86_64 kill_call && permits toy_kernel [] kill_call))
apply_network_seccomp_policy-permits_example =
    apply_network_seccomp_policy-permits toy_kernel kill_call x86_64 (true, true) (true, true) []
      installed installed-apply

kill_denied :
    (admits_handles x86_64 kill_call
      && (admits_network x86_64 kill_call && permits toy_kernel [] kill_call))
    ≡ false
unfolding admits_handles admits_network
kill_denied = refl

apply_network_seccomp_policy-eq_ok_iff_example :
    ((all : List (List SockFilter)) × (apply_network_seccomp_policy x86_64
          (true, true)
          (true, false)
          []
        ≡ ok all))
    ↔ (is_applicable x86_64 (true, true) (true, false) ≡ true)
apply_network_seccomp_policy-eq_ok_iff_example =
    apply_network_seccomp_policy-eq_ok_iff x86_64 (true, true) (true, false) []
