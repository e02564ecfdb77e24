-- ===== src/Isolation/Policy.antt =====
-- tools/moriarty_isolation.py: the two seccomp filters of a probe, and their installation. Each call
-- of `prctl` that fails raises OSError; which ones fail is an argument.
use Prim.Native.Nat.{bit_or}
use qsol_fed.Base.{ℕ, Bool, not, List, [], ◌∷◌, ◌++◌, length}
use qsol_fed.Base.Result.{
  Result, ok, err, ◌>>=◌, ◌>>◌, raise_if, os_error, moriarty_network_seccomp_arch_unsupported,
  moriarty_signal_seccomp_arch_unsupported, moriarty_process_memory_seccomp_arch_unsupported,
  moriarty_prlimit_seccomp_arch_unsupported, moriarty_pidfd_descriptor_seccomp_arch_unsupported,
  moriarty_keyring_seccomp_arch_unsupported,
}
use qsol_fed.Isolation.Filter.{
  SockFilter, instruction, bpf_ld_w_abs, bpf_jmp_jeq_k, bpf_jmp_jset_k, bpf_ret_k, ret_allow,
}

-- `os.uname().machine`
pub data Machine : Type 0 where
  x86_64 aarch64 other_machine : Machine

abbrev pub audit_arch_x86_64 : ℕ
audit_arch_x86_64 = 0xC000003E

abbrev pub audit_arch_aarch64 : ℕ
audit_arch_aarch64 = 0xC00000B7

abbrev pub x32_syscall_bit : ℕ
x32_syscall_bit = 0x40000000

abbrev pub data_arch_offset : ℕ
data_arch_offset = 4

abbrev pub data_arg0_offset : ℕ
data_arg0_offset = 16

abbrev pub af_unix : ℕ
af_unix = 1

-- `_SECCOMP_RET_ERRNO | errno.EPERM`
abbrev pub deny : ℕ
deny = bit_or 0x00050000 1

unfoldable pub socket_syscalls : Machine → Result (ℕ × ℕ × ℕ × ℕ)
socket_syscalls x86_64 = ok (41, 53, 42, audit_arch_x86_64)
socket_syscalls aarch64 = ok (198, 199, 203, audit_arch_aarch64)
socket_syscalls other_machine = err moriarty_network_seccomp_arch_unsupported

-- kill, tkill, tgkill, pidfd_send_signal, rt_sigqueueinfo, rt_tgsigqueueinfo
unfoldable pub signal_syscalls : Machine → Result (ℕ × ℕ × ℕ × ℕ × ℕ × ℕ)
signal_syscalls x86_64 = ok (62, 200, 234, 424, 129, 297)
signal_syscalls aarch64 = ok (129, 130, 131, 424, 138, 240)
signal_syscalls other_machine = err moriarty_signal_seccomp_arch_unsupported

unfoldable pub process_memory_syscalls : Machine → Result (List ℕ)
process_memory_syscalls x86_64 = ok (101 ∷ 310 ∷ 311 ∷ [])
process_memory_syscalls aarch64 = ok (117 ∷ 270 ∷ 271 ∷ [])
process_memory_syscalls other_machine = err moriarty_process_memory_seccomp_arch_unsupported

abbrev pub io_uring_syscalls : List ℕ
io_uring_syscalls = 425 ∷ 426 ∷ 427 ∷ []

unfoldable pub prlimit_syscall : Machine → Result ℕ
prlimit_syscall x86_64 = ok 302
prlimit_syscall aarch64 = ok 261
prlimit_syscall other_machine = err moriarty_prlimit_seccomp_arch_unsupported

unfoldable pub pidfd_descriptor_syscalls : Machine → Result (List ℕ)
pidfd_descriptor_syscalls x86_64 = ok (434 ∷ 438 ∷ [])
pidfd_descriptor_syscalls aarch64 = ok (434 ∷ 438 ∷ [])
pidfd_descriptor_syscalls other_machine = err moriarty_pidfd_descriptor_seccomp_arch_unsupported

unfoldable pub keyring_syscalls : Machine → Result (List ℕ)
keyring_syscalls x86_64 = ok (248 ∷ 249 ∷ 250 ∷ [])
keyring_syscalls aarch64 = ok (217 ∷ 218 ∷ 219 ∷ [])
keyring_syscalls other_machine = err moriarty_keyring_seccomp_arch_unsupported

-- another architecture's calls are denied, and the call's number is loaded
abbrev pub arch_block : ℕ → List SockFilter
arch_block audit_arch =
    instruction bpf_ld_w_abs 0 0 data_arch_offset
    ∷ instruction bpf_jmp_jeq_k 1 0 audit_arch
    ∷ instruction bpf_ret_k 0 0 deny
    ∷ instruction bpf_ld_w_abs 0 0 0
    ∷ []

-- `if os.uname().machine == "x86_64"`
abbrev pub x32_block : Machine → List SockFilter
x32_block x86_64 =
    instruction bpf_jmp_jset_k 0 1 x32_syscall_bit ∷ instruction bpf_ret_k 0 0 deny ∷ []
x32_block _ = []

-- the loop over denied numbers
abbrev pub deny_each : List ℕ → List SockFilter
deny_each [] = []
deny_each (number ∷ numbers) =
    instruction bpf_jmp_jeq_k 0 1 number ∷ instruction bpf_ret_k 0 0 deny ∷ deny_each numbers

abbrev pub prlimit_block : List SockFilter
prlimit_block =
    instruction bpf_ld_w_abs 0 0 data_arg0_offset
    ∷ instruction bpf_jmp_jeq_k 1 0 0
    ∷ instruction bpf_ret_k 0 0 deny
    ∷ instruction bpf_ld_w_abs 0 0 0
    ∷ []

abbrev pub socket_block : ℕ → ℕ → ℕ → List SockFilter
socket_block socket_nr connect_nr socketpair_nr =
    instruction bpf_jmp_jeq_k 0 1 socket_nr
    ∷ instruction bpf_ret_k 0 0 deny
    ∷ instruction bpf_jmp_jeq_k 0 1 connect_nr
    ∷ instruction bpf_ret_k 0 0 deny
    ∷ instruction bpf_jmp_jeq_k 0 4 socketpair_nr
    ∷ instruction bpf_ld_w_abs 0 0 data_arg0_offset
    ∷ instruction bpf_jmp_jeq_k 0 1 af_unix
    ∷ instruction bpf_ret_k 0 0 ret_allow
    ∷ instruction bpf_ret_k 0 0 deny
    ∷ instruction bpf_ret_k 0 0 ret_allow
    ∷ []

-- the instructions of the first `apply_network_seccomp_policy`
unfoldable pub network_filter : Machine → Result (List SockFilter)
unfolding socket_syscalls signal_syscalls process_memory_syscalls prlimit_syscall
network_filter m = do
  (socket_nr, socketpair_nr, connect_nr, audit_arch) ← socket_syscalls m
  (kill_nr, tkill_nr, tgkill_nr, pidfd_signal_nr, rt_sigqueueinfo_nr, rt_tgsigqueueinfo_nr) ←
      signal_syscalls m
  process_memory ← process_memory_syscalls m
  prlimit ← prlimit_syscall m
  let denied =
      io_uring_syscalls
      ++ pidfd_signal_nr ∷ kill_nr ∷ tkill_nr ∷ tgkill_nr ∷ rt_sigqueueinfo_nr
        ∷ rt_tgsigqueueinfo_nr ∷ process_memory
  ok (
      arch_block audit_arch
      ++ (x32_block m
          ++ (deny_each denied
              ++ (instruction bpf_jmp_jeq_k 0 (length prlimit_block) prlimit
                  ∷ (prlimit_block ++ socket_block socket_nr connect_nr socketpair_nr)))))

-- the instructions of `_apply_sensitive_host_handle_seccomp_policy`
unfoldable pub host_handle_filter : Machine → Result (List SockFilter)
unfolding socket_syscalls pidfd_descriptor_syscalls keyring_syscalls
host_handle_filter m = do
  (_, _, _, audit_arch) ← socket_syscalls m
  pidfd_descriptor ← pidfd_descriptor_syscalls m
  keyring ← keyring_syscalls m
  ok (
      arch_block audit_arch
      ++ (x32_block m
          ++ (deny_each (pidfd_descriptor ++ keyring) ++ instruction bpf_ret_k 0 0 ret_allow ∷ [])))

-- The two calls of `prctl`: no new privileges, then the filter. `works` tells whether they succeed.
abbrev pub install :
    Bool × Bool → List SockFilter → List (List SockFilter) → Result (List (List SockFilter))
install works filter filters = do
  raise_if (not works.0) os_error
  raise_if (not works.1) os_error
  ok (filter ∷ filters)

-- both policies, on the filters that the process has already
unfoldable pub apply_network_seccomp_policy :
    Machine → Bool × Bool → Bool × Bool → List (List SockFilter) → Result (List (List SockFilter))
unfolding network_filter host_handle_filter
apply_network_seccomp_policy m first second filters = do
  network ← network_filter m
  with_network ← install first network filters
  host_handles ← host_handle_filter m
  install second host_handles with_network
