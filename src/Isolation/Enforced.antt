-- ===== src/Isolation/Enforced.antt =====
-- The installed filters enforce the policy that the harness documents.
use qsol_fed.Base.{
  ℕ, ◌≡◌, ◌≢◌, ◌↔◌, refl, ap, ◌∙◌, Bool, true, false, ◌&&◌, not, ◌==◌, List, [], ◌∷◌, ◌++◌,
  if◌then◌else◌, arith,
}
use qsol_fed.Base.Result.{
  ok, ◌>>=◌, raise_if, Returns, moriarty_network_seccomp_arch_unsupported, Returns-ok, Returns-err,
  Returns-bind, Returns-guard,
}
use qsol_fed.Isolation.Filter.{
  SockFilter, instruction, bpf_jmp_jeq_k, bpf_ret_k, ret_allow, Call, Kernel, permits,
}
use qsol_fed.Isolation.Policy.{
  Machine, x86_64, aarch64, other_machine, deny, deny_each, arch_block, x32_block, prlimit_block,
  socket_block, af_unix, data_arch_offset, data_arg0_offset, socket_syscalls, signal_syscalls,
  process_memory_syscalls, prlimit_syscall, pidfd_descriptor_syscalls, keyring_syscalls,
  network_filter, host_handle_filter, install, apply_network_seccomp_policy,
}
use qsol_fed.Isolation.Steps.{
  one_of, is_x32, run-deny_each, run-arch_block, run-x32_block, run-prlimit, run-socket_block,
}
use qsol_fed.Isolation.Admits.{
  Numbers, numbers, admits_network, admits_handles, network_verdict, handles_verdict,
}

module _ (kernel : Kernel) (c : Call) where
  -- a filter of the first policy's shape, of whatever numbers
  network-run :
      (m : Machine) (audit_arch : ℕ) (control : List ℕ) (prlimit socket connect socketpair : ℕ)
      → kernel.run
          (arch_block audit_arch
            ++ (x32_block m
                ++ (deny_each control
                    ++ (instruction bpf_jmp_jeq_k 0 4 prlimit
                        ∷ (prlimit_block ++ socket_block socket connect socketpair)))))
          c
          0
        ≡ (if c data_arch_offset == audit_arch
            then (if is_x32 m (c 0)
                then deny
                else (if one_of control (c 0)
                    then deny
                    else (if c 0 == prlimit
                        then (if c data_arg0_offset == 0
                            then (if c 0 == socket
                                then deny
                                else (if c 0 == connect
                                    then deny
                                    else (if c 0 == socketpair
                                        then (if c data_arg0_offset == af_unix
                                            then ret_allow
                                            else deny)
                                        else ret_allow)))
                            else deny)
                        else (if c 0 == socket
                            then deny
                            else (if c 0 == connect
                                then deny
                                else (if c 0 == socketpair
                                    then (if c data_arg0_offset == af_unix then ret_allow else deny)
                                    else ret_allow))))))
            else deny)
  network-run m audit_arch control prlimit socket connect socketpair =
      run-arch_block kernel c audit_arch _ 0
      ∙ ap (λ (v : ℕ). if c data_arch_offset == audit_arch then v else deny)
          (run-x32_block kernel c m _ (c 0)
            ∙ ap (λ (v : ℕ). if is_x32 m (c 0) then deny else v)
                (run-deny_each kernel c control _ (c 0)
                  ∙ ap (λ (v : ℕ). if one_of control (c 0) then deny else v)
                      (run-prlimit kernel c prlimit _ (c 0)
                        ∙ ap
                            (λ (v : ℕ).
                              if c 0 == prlimit
                              then (if c data_arg0_offset == 0 then v else deny)
                              else v)
                            (run-socket_block kernel c socket connect socketpair (c 0)))))

  handles-run :
      (m : Machine) (audit_arch : ℕ) (handles : List ℕ)
      → kernel.run
          (arch_block audit_arch
            ++ (x32_block m ++ (deny_each handles ++ instruction bpf_ret_k 0 0 ret_allow ∷ [])))
          c
          0
        ≡ (if c data_arch_offset == audit_arch
            then (if is_x32 m (c 0)
                then deny
                else (if one_of handles (c 0) then deny else ret_allow))
            else deny)
  handles-run m audit_arch handles =
      run-arch_block kernel c audit_arch _ 0
      ∙ ap (λ (v : ℕ). if c data_arch_offset == audit_arch then v else deny)
          (run-x32_block kernel c m _ (c 0)
            ∙ ap (λ (v : ℕ). if is_x32 m (c 0) then deny else v)
                (run-deny_each kernel c handles _ (c 0)
                  ∙ ap (λ (v : ℕ). if one_of handles (c 0) then deny else v)
                      (kernel.run-return ret_allow [] c (c 0))))

  -- both shapes, at the numbers of a machine
  network-verdict :
      (m : Machine) (n : Numbers)
      → (kernel.run
            (arch_block n.audit_arch
              ++ (x32_block m
                  ++ (deny_each n.control
                      ++ (instruction bpf_jmp_jeq_k 0 4 n.prlimit
                          ∷ (prlimit_block ++ socket_block n.socket n.connect n.socketpair)))))
            c
            0
          == ret_allow)
        ≡ ((c data_arch_offset == n.audit_arch && not (is_x32 m (c 0)))
            && not (one_of n.control (c 0))
            && (if c 0 == n.prlimit then c data_arg0_offset == 0 else true)
            && not (c 0 == n.socket)
            && not (c 0 == n.connect)
            && (if c 0 == n.socketpair then c data_arg0_offset == af_unix else true))
  network-verdict m n =
      ap (λ (v : ℕ). v == ret_allow)
        (network-run m n.audit_arch n.control n.prlimit n.socket n.connect n.socketpair)
      ∙ network_verdict (c data_arch_offset == n.audit_arch) (is_x32 m (c 0))
          (one_of n.control (c 0)) (c 0 == n.prlimit) (c data_arg0_offset == 0) (c 0 == n.socket)
          (c 0 == n.connect) (c 0 == n.socketpair) (c data_arg0_offset == af_unix)

  handles-verdict :
      (m : Machine) (n : Numbers)
      → (kernel.run
            (arch_block n.audit_arch
              ++ (x32_block m ++ (deny_each n.handles ++ instruction bpf_ret_k 0 0 ret_allow ∷ [])))
            c
            0
          == ret_allow)
        ≡ ((c data_arch_offset == n.audit_arch && not (is_x32 m (c 0)))
            && not (one_of n.handles (c 0)))
  handles-verdict m n =
      ap (λ (v : ℕ). v == ret_allow) (handles-run m n.audit_arch n.handles)
      ∙ handles_verdict (c data_arch_offset == n.audit_arch) (is_x32 m (c 0))
          (one_of n.handles (c 0))

  network-admits :
      (m : Machine)
      → Returns (λ f. (kernel.run f c 0 == ret_allow) ≡ admits_network m c) (network_filter m)
  unfolding network_filter socket_syscalls signal_syscalls process_memory_syscalls prlimit_syscall
      ◌>>=◌ admits_network
  network-admits other_machine = Returns-err moriarty_network_seccomp_arch_unsupported
  network-admits x86_64 = Returns-ok _ (network-verdict x86_64 (numbers x86_64))
  network-admits aarch64 = Returns-ok _ (network-verdict aarch64 (numbers aarch64))

  handles-admits :
      (m : Machine)
      → Returns (λ f. (kernel.run f c 0 == ret_allow) ≡ admits_handles m c) (host_handle_filter m)
  unfolding host_handle_filter socket_syscalls pidfd_descriptor_syscalls keyring_syscalls ◌>>=◌
      admits_handles
  handles-admits other_machine = Returns-err moriarty_network_seccomp_arch_unsupported
  handles-admits x86_64 = Returns-ok _ (handles-verdict x86_64 (numbers x86_64))
  handles-admits aarch64 = Returns-ok _ (handles-verdict aarch64 (numbers aarch64))

  install-permits :
      (works : Bool × Bool) (f : List SockFilter) (filters : List (List SockFilter))
      → Returns
          (λ all.
            permits kernel all c ≡ (kernel.run f c 0 == ret_allow && permits kernel filters c))
          (install works f filters)
  unfolding permits
  install-permits works f filters = Returns-guard _ _ λ _. Returns-guard _ _ λ _. Returns-ok _ refl

  applied :
      (m : Machine) (first second : Bool × Bool) (filters : List (List SockFilter))
      → Returns
          (λ all.
            permits kernel all c
            ≡ (admits_handles m c && (admits_network m c && permits kernel filters c)))
          (apply_network_seccomp_policy m first second filters)
  unfolding apply_network_seccomp_policy
  applied m first second filters = Returns-bind _ λ f e₁. Returns-bind _ λ one e₂.
      Returns-bind _ λ g e₃.
        let outer = install-permits second g one in
        let inner = (install-permits first f filters).at one e₂ in
        let net = (network-admits m).at f e₁ in
        let han = (handles-admits m).at g e₃ in
        record { at = λ all e₄. let whole = outer.at all e₄ in cc }

  -- When the policy is applied without an error, a system call goes through exactly when both parts
  -- of the policy admit it and the filters that the process had before let it through. So every call
  -- that a part refuses is denied, whatever the process does.
  pub apply_network_seccomp_policy-permits :
      (m : Machine) (first second : Bool × Bool) (filters all : List (List SockFilter))
      → apply_network_seccomp_policy m first second filters ≡ ok all
      → permits kernel all c
        ≡ (admits_handles m c && (admits_network m c && permits kernel filters c))
  apply_network_seccomp_policy-permits m first second filters all h =
      (applied m first second filters).at all h

-- The machine is known, and none of the four calls of `prctl` fails.
abbrev pub is_applicable : Machine → Bool × Bool → Bool × Bool → Bool
is_applicable other_machine first second = false
is_applicable _ first second = first.0 && first.1 && second.0 && second.1

install-works :
    (works : Bool × Bool) (f : List SockFilter) (filters : List (List SockFilter))
    → Returns (λ _. (works.0 && works.1) ≡ true) (install works f filters)
install-works works f filters =
    Returns-guard _ _ λ h. Returns-guard _ _ λ k. Returns-ok _ (ground (arith, h, k))

unknown-fails :
    (first second : Bool × Bool) (filters all : List (List SockFilter))
    → apply_network_seccomp_policy other_machine first second filters ≢ ok all
unfolding apply_network_seccomp_policy network_filter socket_syscalls ◌>>=◌
unknown-fails first second filters all h = cc

applied-works :
    (m : Machine) (first second : Bool × Bool) (filters : List (List SockFilter))
    → Returns
        (λ _. (first.0 && first.1 && second.0 && second.1) ≡ true)
        (apply_network_seccomp_policy m first second filters)
unfolding apply_network_seccomp_policy
applied-works m first second filters = Returns-bind _ λ f _. Returns-bind _ λ one e₂.
    Returns-bind _ λ g _.
      let before = (install-works first f filters).at one e₂ in
      let after = install-works second g one in
      record { at = λ all e₄. let last = after.at all e₄ in ground arith }

applies :
    (m : Machine) (first second : Bool × Bool) (filters : List (List SockFilter))
    → is_applicable m first second ≡ true
    → (all : List (List SockFilter)) × (apply_network_seccomp_policy m first second filters
        ≡ ok all)
unfolding apply_network_seccomp_policy network_filter host_handle_filter socket_syscalls
    signal_syscalls process_memory_syscalls prlimit_syscall pidfd_descriptor_syscalls
    keyring_syscalls ◌>>=◌ raise_if
applies x86_64 (true, true) (true, true) filters h = (_, refl)
applies aarch64 (true, true) (true, true) filters h = (_, refl)
applies other_machine first second filters h = cc
applies x86_64 (false, b) second filters h = cc
applies x86_64 (true, false) second filters h = cc
applies x86_64 (true, true) (false, b) filters h = cc
applies x86_64 (true, true) (true, false) filters h = cc
applies aarch64 (false, b) second filters h = cc
applies aarch64 (true, false) second filters h = cc
applies aarch64 (true, true) (false, b) filters h = cc
applies aarch64 (true, true) (true, false) filters h = cc

-- The policy fails closed: it returns exactly on a known machine on which all four calls of `prctl`
-- succeed, and raises an error otherwise.
pub apply_network_seccomp_policy-eq_ok_iff :
    (m : Machine) (first second : Bool × Bool) (filters : List (List SockFilter))
    → ((all : List (List SockFilter)) × (apply_network_seccomp_policy m first second filters
          ≡ ok all))
      ↔ (is_applicable m first second ≡ true)
apply_network_seccomp_policy-eq_ok_iff m first second filters =
    (λ (all, h). by_machine m all h, applies m first second filters)
  where
    by_machine :
        (m : Machine) (all : List (List SockFilter))
        → apply_network_seccomp_policy m first second filters ≡ ok all
        → is_applicable m first second ≡ true
    by_machine other_machine all h = absurd (unknown-fails first second filters all h)
    by_machine x86_64 all h = (applied-works x86_64 first second filters).at all h
    by_machine aarch64 all h = (applied-works aarch64 first second filters).at all h
