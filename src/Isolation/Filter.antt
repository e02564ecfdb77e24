-- ===== src/Isolation/Filter.antt =====
-- The instructions of a seccomp filter, and the kernel that runs them. The kernel is a parameter: the
-- laws say what seccomp(2) and the documentation of classic BPF say of the four instructions in use.
use Prim.Native.Nat.{bit_and}
use qsol_fed.Base.{ℕ, ◌≡◌, Bool, true, ◌&&◌, ◌==◌, List, [], ◌∷◌, drop, if◌then◌else◌}

-- `struct sock_filter`
pub record SockFilter : Type 0 where
  pub code : ℕ
  pub jt : ℕ
  pub jf : ℕ
  pub k : ℕ

abbrev pub bpf_ld_w_abs : ℕ
bpf_ld_w_abs = 0x20

abbrev pub bpf_jmp_jeq_k : ℕ
bpf_jmp_jeq_k = 0x15

abbrev pub bpf_jmp_jset_k : ℕ
bpf_jmp_jset_k = 0x45

abbrev pub bpf_ret_k : ℕ
bpf_ret_k = 0x06

abbrev pub instruction : ℕ → ℕ → ℕ → ℕ → SockFilter
instruction code jt jf k = record { code = code; jt = jt; jf = jf; k = k }

-- The words of `struct seccomp_data`, by their offset.
abbrev pub Call : Type 0
Call = ℕ → ℕ

-- What a filter returns for a call, from an instruction on and with a value in the accumulator.
pub record Kernel : Type 0 where
  pub run : List SockFilter → Call → ℕ → ℕ
  pub run-load :
      (offset : ℕ) (rest : List SockFilter) (c : Call) (a : ℕ)
      → run (instruction bpf_ld_w_abs 0 0 offset ∷ rest) c a ≡ run rest c (c offset)
  pub run-equal :
      (jt jf k : ℕ) (rest : List SockFilter) (c : Call) (a : ℕ)
      → run (instruction bpf_jmp_jeq_k jt jf k ∷ rest) c a
        ≡ run (drop (if a == k then jt else jf) rest) c a
  pub run-bits :
      (jt jf k : ℕ) (rest : List SockFilter) (c : Call) (a : ℕ)
      → run (instruction bpf_jmp_jset_k jt jf k ∷ rest) c a
        ≡ run (drop (if bit_and a k == 0 then jf else jt) rest) c a
  pub run-return :
      (k : ℕ) (rest : List SockFilter) (c : Call) (a : ℕ)
      → run (instruction bpf_ret_k 0 0 k ∷ rest) c a ≡ k

abbrev pub ret_allow : ℕ
ret_allow = 0x7FFF0000

-- Of several filters the most restrictive decides: all of them return SECCOMP_RET_ALLOW. Older filters of the
-- process that return SECCOMP_RET_LOG, after which a call goes through too, are not counted as permitting it.
unfoldable pub permits : Kernel → List (List SockFilter) → Call → Bool
permits kernel [] c = true
permits kernel (filter ∷ filters) c = kernel.run filter c 0 == ret_allow && permits kernel filters c
