-- ===== src/Isolation/Admits.antt =====
-- Which system calls the parts of the policy admit, in the words of the policy.
use qsol_fed.Base.{ℕ, ◌≡◌, Bool, true, ◌&&◌, not, ◌==◌, List, [], ◌∷◌, if◌then◌else◌, arith}
use qsol_fed.Isolation.Filter.{ret_allow, Call}
use qsol_fed.Isolation.Policy.{Machine, x86_64, deny, af_unix, data_arch_offset, data_arg0_offset}
use qsol_fed.Isolation.Steps.{one_of, is_x32}

-- The system calls of an architecture that concern the policy.
pub record Numbers : Type 0 where
  pub audit_arch : ℕ
  -- io_uring, signals, other processes' memory, socket and connect
  pub control : List ℕ
  pub socket : ℕ
  pub connect : ℕ
  pub prlimit : ℕ
  pub socketpair : ℕ
  -- descriptors of other processes, and keyrings
  pub handles : List ℕ

abbrev pub numbers : Machine → Numbers
numbers x86_64 = record {
  audit_arch = 0xC000003E;
  control = 425 ∷ 426 ∷ 427 ∷ 424 ∷ 62 ∷ 200 ∷ 234 ∷ 129 ∷ 297 ∷ 101 ∷ 310 ∷ 311 ∷ [];
  socket = 41;
  connect = 42;
  prlimit = 302;
  socketpair = 53;
  handles = 434 ∷ 438 ∷ 248 ∷ 249 ∷ 250 ∷ [];
}
numbers _ = record {
  audit_arch = 0xC00000B7;
  control = 425 ∷ 426 ∷ 427 ∷ 424 ∷ 129 ∷ 130 ∷ 131 ∷ 138 ∷ 240 ∷ 117 ∷ 270 ∷ 271 ∷ [];
  socket = 198;
  connect = 203;
  prlimit = 261;
  socketpair = 199;
  handles = 434 ∷ 438 ∷ 217 ∷ 218 ∷ 219 ∷ [];
}

abbrev pub admits_native : Machine → Call → Bool
admits_native m c = c data_arch_offset == (numbers m).audit_arch && not (is_x32 m (c 0))

-- The first policy: no signals, no sockets but anonymous pairs, limits of the process itself only.
unfoldable pub admits_network : Machine → Call → Bool
admits_network m c =
    admits_native m c
    && not (one_of (numbers m).control (c 0))
    && (if c 0 == (numbers m).prlimit then c data_arg0_offset == 0 else true)
    && not (c 0 == (numbers m).socket)
    && not (c 0 == (numbers m).connect)
    && (if c 0 == (numbers m).socketpair then c data_arg0_offset == af_unix else true)

unfoldable pub admits_handles : Machine → Call → Bool
admits_handles m c = admits_native m c && not (one_of (numbers m).handles (c 0))

pub network_verdict :
    (native x32 control prlimit own socket connect pair unix : Bool)
    → ((if native
          then (if x32
              then deny
              else (if control
                  then deny
                  else (if prlimit
                      then (if own
                          then (if socket
                              then deny
                              else (if connect
                                  then deny
                                  else (if pair
                                      then (if unix then ret_allow else deny)
                                      else ret_allow)))
                          else deny)
                      else (if socket
                          then deny
                          else (if connect
                              then deny
                              else (if pair
                                  then (if unix then ret_allow else deny)
                                  else ret_allow))))))
          else deny)
        == ret_allow)
      ≡ ((native && not x32)
          && not control
          && (if prlimit then own else true)
          && not socket
          && not connect
          && (if pair then unix else true))
network_verdict native x32 control prlimit own socket connect pair unix = ground arith

pub handles_verdict :
    (native x32 handles : Bool)
    → ((if native then (if x32 then deny else (if handles then deny else ret_allow)) else deny)
        == ret_allow)
      ≡ ((native && not x32) && not handles)
handles_verdict native x32 handles = ground arith
