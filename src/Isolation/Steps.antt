-- ===== src/Isolation/Steps.antt =====
-- What each block of a seccomp filter decides.
use Prim.Native.Nat.{bit_and}
use qsol_fed.Base.{
  ℕ, ◌≡◌, refl, ap, ◌∙◌, Bool, true, false, ◌||◌, ◌==◌, List, [], ◌∷◌, ◌++◌, if◌then◌else◌,
  Bool-cases, inl, inr,
}
use qsol_fed.Isolation.Filter.{
  SockFilter, instruction, bpf_ld_w_abs, bpf_jmp_jeq_k, bpf_ret_k, ret_allow, Call, Kernel,
}
use qsol_fed.Isolation.Policy.{
  Machine, x86_64, aarch64, other_machine, deny, deny_each, arch_block, x32_block, prlimit_block,
  socket_block, x32_syscall_bit, af_unix, data_arch_offset, data_arg0_offset,
}

abbrev pub one_of : List ℕ → ℕ → Bool
one_of [] a = false
one_of (n ∷ ns) a = a == n || one_of ns a

abbrev pub is_x32 : Machine → ℕ → Bool
is_x32 x86_64 a = if bit_and a x32_syscall_bit == 0 then false else true
is_x32 _ a = false

module _ (kernel : Kernel) (c : Call) where
  -- a jump with one instruction to skip
  deny_equal :
      (number : ℕ) (rest : List SockFilter) (a : ℕ)
      → kernel.run
          (instruction bpf_jmp_jeq_k 0 1 number ∷ instruction bpf_ret_k 0 0 deny ∷ rest)
          c
          a
        ≡ (if a == number then deny else kernel.run rest c a)
  deny_equal number rest a =
      kernel.run-equal 0 1 number (instruction bpf_ret_k 0 0 deny ∷ rest) c a
      ∙ elim (Bool-cases (a == number)) [
        | inl e ↦ rw e (kernel.run-return deny rest c a)
        | inr e ↦ rw e
      ]

  pub run-deny_each :
      (numbers : List ℕ) (rest : List SockFilter) (a : ℕ)
      → kernel.run (deny_each numbers ++ rest) c a
        ≡ (if one_of numbers a then deny else kernel.run rest c a)
  run-deny_each [] rest a = refl
  run-deny_each (n ∷ ns) rest a =
      deny_equal n (deny_each ns ++ rest) a
      ∙ elim (Bool-cases (a == n)) [ inl e ↦ rw e | inr e ↦ rw e (run-deny_each ns rest a) ]

  -- a jump over the return that a failed test meets
  unless_equal :
      (number : ℕ) (rest : List SockFilter) (a : ℕ)
      → kernel.run
          (instruction bpf_jmp_jeq_k 1 0 number ∷ instruction bpf_ret_k 0 0 deny ∷ rest)
          c
          a
        ≡ (if a == number then kernel.run rest c a else deny)
  unless_equal number rest a =
      kernel.run-equal 1 0 number (instruction bpf_ret_k 0 0 deny ∷ rest) c a
      ∙ elim (Bool-cases (a == number)) [
        | inl e ↦ rw e
        | inr e ↦ rw e (kernel.run-return deny rest c a)
      ]

  -- A word is tested and another is loaded for the rest.
  test_word :
      (offset number next : ℕ) (rest : List SockFilter) (a : ℕ)
      → kernel.run
          (instruction bpf_ld_w_abs 0 0 offset
            ∷ instruction bpf_jmp_jeq_k 1 0 number
            ∷ instruction bpf_ret_k 0 0 deny
            ∷ instruction bpf_ld_w_abs 0 0 next
            ∷ rest)
          c
          a
        ≡ (if c offset == number then kernel.run rest c (c next) else deny)
  test_word offset number next rest a =
      kernel.run-load offset _ c a
      ∙ unless_equal number (instruction bpf_ld_w_abs 0 0 next ∷ rest) (c offset)
      ∙ ap (λ (v : ℕ). if c offset == number then v else deny)
          (kernel.run-load next rest c (c offset))

  pub run-arch_block :
      (audit_arch : ℕ) (rest : List SockFilter) (a : ℕ)
      → kernel.run (arch_block audit_arch ++ rest) c a
        ≡ (if c data_arch_offset == audit_arch then kernel.run rest c (c 0) else deny)
  run-arch_block audit_arch rest a = test_word data_arch_offset audit_arch 0 rest a

  pub run-x32_block :
      (m : Machine) (rest : List SockFilter) (a : ℕ)
      → kernel.run (x32_block m ++ rest) c a ≡ (if is_x32 m a then deny else kernel.run rest c a)
  run-x32_block aarch64 rest a = refl
  run-x32_block other_machine rest a = refl
  run-x32_block x86_64 rest a =
      kernel.run-bits 0 1 x32_syscall_bit (instruction bpf_ret_k 0 0 deny ∷ rest) c a
      ∙ elim (Bool-cases (bit_and a x32_syscall_bit == 0)) [
        | inl e ↦ rw e
        | inr e ↦ rw e (kernel.run-return deny rest c a)
      ]

  pub run-prlimit :
      (number : ℕ) (rest : List SockFilter) (a : ℕ)
      → kernel.run (instruction bpf_jmp_jeq_k 0 4 number ∷ (prlimit_block ++ rest)) c a ≡ (
          if a == number
          then (if c data_arg0_offset == 0 then kernel.run rest c (c 0) else deny)
          else kernel.run rest c a)
  run-prlimit number rest a =
      kernel.run-equal 0 4 number (prlimit_block ++ rest) c a ∙ elim (Bool-cases (a == number)) [
        | inl e ↦ rw e (test_word data_arg0_offset 0 0 rest a)
        | inr e ↦ rw e
      ]

  family_step :
      (a : ℕ)
      → kernel.run
          (instruction bpf_jmp_jeq_k 0 1 af_unix
            ∷ instruction bpf_ret_k 0 0 ret_allow
            ∷ instruction bpf_ret_k 0 0 deny
            ∷ instruction bpf_ret_k 0 0 ret_allow
            ∷ [])
          c
          a
        ≡ (if a == af_unix then ret_allow else deny)
  family_step a = kernel.run-equal 0 1 af_unix _ c a ∙ elim (Bool-cases (a == af_unix)) [
    | inl e ↦ rw e (kernel.run-return ret_allow _ c a)
    | inr e ↦ rw e (kernel.run-return deny _ c a)
  ]

  socketpair_step :
      (number a : ℕ)
      → kernel.run
          (instruction bpf_jmp_jeq_k 0 4 number
            ∷ instruction bpf_ld_w_abs 0 0 data_arg0_offset
            ∷ instruction bpf_jmp_jeq_k 0 1 af_unix
            ∷ instruction bpf_ret_k 0 0 ret_allow
            ∷ instruction bpf_ret_k 0 0 deny
            ∷ instruction bpf_ret_k 0 0 ret_allow
            ∷ [])
          c
          a
        ≡ (if a == number
            then (if c data_arg0_offset == af_unix then ret_allow else deny)
            else ret_allow)
  socketpair_step number a = kernel.run-equal 0 4 number _ c a ∙ elim (Bool-cases (a == number)) [
    | inl e ↦ rw e (kernel.run-load data_arg0_offset _ c a ∙ family_step (c data_arg0_offset))
    | inr e ↦ rw e (kernel.run-return ret_allow [] c a)
  ]

  pub run-socket_block :
      (socket_nr connect_nr socketpair_nr : ℕ) (a : ℕ)
      → kernel.run (socket_block socket_nr connect_nr socketpair_nr) c a ≡ (
          if a == socket_nr
          then deny
          else (if a == connect_nr
              then deny
              else (if a == socketpair_nr
                  then (if c data_arg0_offset == af_unix then ret_allow else deny)
                  else ret_allow)))
  run-socket_block socket_nr connect_nr socketpair_nr a =
      deny_equal socket_nr _ a
      ∙ ap (λ (v : ℕ). if a == socket_nr then deny else v)
          (deny_equal connect_nr _ a
            ∙ ap (λ (v : ℕ). if a == connect_nr then deny else v) (socketpair_step socketpair_nr a))
