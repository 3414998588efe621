-- ===== src/TrapDecode.antt =====
-- OrlixHostAdapter/Sources/OrlixHostAdapter/runtime/trap_decode.h: how the host's trap handler
-- recognises a user access through the host's TLS pointer, and moves it to the user's. The
-- pointers that the functions write through are given by every caller; a result is an `Option`.
pub mod Classes
pub mod Rebase
pub mod Search
mod Tests
use orlix_system.Prelude.{
  ℕ, zero, suc, ◌+◌, ◌-◌, ◌/◌, ◌^◌, Bool, true, false, ◌&&◌, ◌||◌, not, Option, none, some, List,
  ltb, leb, ◌==◌, if◌then◌else◌, bit_and, get_elem?,
}

abbrev pub register_mask : ℕ
register_mask = 0x1f

abbrev pub search_instructions : ℕ
search_instructions = 32

abbrev pub rebase_window : ℕ
rebase_window = 4096

abbrev pub uint64_max : ℕ
uint64_max = 2 ^ 64 - 1

-- `sizeof(uintptr_t) - 1` is 7.
unfoldable pub valid_user_tls : ℕ → ℕ → ℕ → Bool
valid_user_tls user_base user_limit tls =
    ltb user_base user_limit && leb user_base tls && ltb tls user_limit && bit_and tls 7 == 0

unfoldable pub can_repair_user_tls : ℕ → ℕ → ℕ → Bool
can_repair_user_tls user_base user_limit active_user_tls =
    not (active_user_tls == 0) && valid_user_tls user_base user_limit active_user_tls

unfoldable pub host_tls_reference : ℕ → ℕ → ℕ → ℕ → ℕ
host_tls_reference installed_host_tls live_tls user_base user_limit =
    if not (live_tls == 0) && not (valid_user_tls user_base user_limit live_tls)
    then live_tls
    else installed_host_tls

unfoldable pub memory_base_register : ℕ → Option ℕ
memory_base_register instruction =
    let instruction_class = bit_and (instruction / 2 ^ 25) 7 in
    let reg = bit_and (instruction / 2 ^ 5) register_mask in
    if not (instruction_class == 4) || reg == 31 then none else some reg

unfoldable pub mrs_tpidr_el0_destination : ℕ → Option ℕ
mrs_tpidr_el0_destination instruction =
    if bit_and instruction 0xffffffe0 == 0xd53bd040
    then some (bit_and instruction register_mask)
    else none

-- The classes of integer instructions: ADR, ADD and SUB immediate, logical immediate, move wide,
-- bitfield, extract, and logical, ADD and SUB with a shifted register.
unfoldable pub integer_class : ℕ → Bool
integer_class instruction =
    bit_and instruction 0x1f000000 == 0x10000000
    || bit_and instruction 0x1f000000 == 0x11000000
    || bit_and instruction 0x1f800000 == 0x12000000
    || bit_and instruction 0x1f800000 == 0x12800000
    || bit_and instruction 0x1f800000 == 0x13000000
    || bit_and instruction 0x1f800000 == 0x13800000
    || bit_and instruction 0x1f200000 == 0x0a000000
    || bit_and instruction 0x1f200000 == 0x0b000000

unfoldable pub integer_instruction_writes_register : ℕ → ℕ → Bool
integer_instruction_writes_register instruction reg =
    if reg == 31 || not (bit_and instruction register_mask == reg)
    then false
    else integer_class instruction

-- The destination of an MRS of TPIDR_EL0 is `base_register`.
abbrev pub reads_tls_into : ℕ → ℕ → Bool
reads_tls_into instruction base_register = elim (mrs_tpidr_el0_destination instruction) [
  | none ↦ false
  | some destination ↦ destination == base_register
]

-- The loop, from `offset` on, with the rounds left below the limit of 32.
unfoldable pub search_loop : List ℕ → ℕ → ℕ → ℕ → ℕ → Bool
search_loop instructions faulting_index base_register zero offset = false
search_loop instructions faulting_index base_register (suc rounds) offset =
    let rest = search_loop instructions faulting_index base_register rounds (offset + 1) in
    if ltb faulting_index offset
    then false
    else elim (get_elem? instructions (faulting_index - offset)) [
      | none ↦ false
      | some instruction ↦
          if reads_tls_into instruction base_register
          then true
          else if integer_instruction_writes_register instruction base_register
          then false
          else rest
    ]

unfoldable pub recent_tpidr_write_matches_base : List ℕ → ℕ → ℕ → ℕ → Bool
recent_tpidr_write_matches_base instructions instruction_count faulting_index base_register =
    if leb instruction_count faulting_index || base_register == 31
    then false
    else search_loop instructions faulting_index base_register search_instructions 1

unfoldable pub rebase_register_from_host_tls : ℕ → ℕ → ℕ → ℕ → ℕ → Option ℕ
rebase_register_from_host_tls host_tls active_user_tls register_value user_base user_limit =
    if host_tls == 0
      || active_user_tls == 0
      || leb user_limit user_base
      || ltb active_user_tls user_base
      || leb user_limit active_user_tls
      || (leb user_base register_value && ltb register_value user_limit)
    then none
    else if leb register_value host_tls
    then (let delta = host_tls - register_value in
        let corrected = active_user_tls - delta in
        if ltb rebase_window delta || ltb active_user_tls delta
        then none
        else if ltb corrected user_base || leb user_limit corrected
        then none
        else some corrected)
    else let delta = register_value - host_tls in
      let corrected = active_user_tls + delta in
      if ltb rebase_window delta || ltb (uint64_max - delta) active_user_tls
      then none
      else if ltb corrected user_base || leb user_limit corrected
      then none
      else some corrected
