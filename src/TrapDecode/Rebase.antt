-- ===== src/TrapDecode/Rebase.antt =====
-- Which registers are rebased, and to what.
use orlix_system.Prelude.{ℕ, ◌+◌, ◌%◌, ◌≤◌, ◌<◌, ◌≡◌, ◌≢◌, ◌↔◌, ◌⊎◌, true, false, some, arith}
use orlix_system.Prelude.Bits.{bit_and-low}
use orlix_system.TrapDecode.{
  valid_user_tls, host_tls_reference, rebase_register_from_host_tls, rebase_window, uint64_max,
}

-- A user TLS pointer lies in the user range and is a multiple of 8.
pub record IsUserTls (user_base user_limit tls : ℕ) : Type 0 where
  pub above : user_base ≤ tls
  pub below : tls < user_limit
  pub word_aligned : tls % 8 ≡ 0

-- The check accepts exactly the user TLS pointers.
pub valid_user_tls-IsUserTls :
    (user_base user_limit tls : ℕ)
    → (valid_user_tls user_base user_limit tls ≡ true) ↔ IsUserTls user_base user_limit tls
unfolding valid_user_tls
valid_user_tls-IsUserTls user_base user_limit tls =
    (λ h. ground (arith, bit_and-low 3 tls), λ u. ground (arith, bit_and-low 3 tls))

-- The pointer that faults are measured against is a user TLS pointer only where the installed one
-- is returned, and the installed one is returned only where the live one is 0 or a user TLS pointer.
pub host_tls_reference-cases :
    (installed live user_base user_limit : ℕ)
    → let r = host_tls_reference installed live user_base user_limit in
      ((r ≡ installed) × ((live ≡ 0) ⊎ (valid_user_tls user_base user_limit live ≡ true)))
      ⊎ ((r ≡ live) × (live ≢ 0) × (valid_user_tls user_base user_limit live ≡ false))
unfolding host_tls_reference
host_tls_reference-cases installed live user_base user_limit = ground arith

-- When a register is rebased to `v`: it lay outside the user range and within the window of the
-- host's pointer, and `v` lies in the user range as far from the user's pointer, on the same side.
pub record IsRebased (host_tls active register user_base user_limit v : ℕ) : Type 0 where
  pub host_set : host_tls ≢ 0
  pub active_set : active ≢ 0
  pub active_above : user_base ≤ active
  pub active_below : active < user_limit
  pub outside : (register < user_base) ⊎ (user_limit ≤ register)
  pub near_below : host_tls ≤ register + rebase_window
  pub near_above : register ≤ host_tls + rebase_window
  pub same_distance : v + host_tls ≡ active + register
  pub above : user_base ≤ v
  pub below : v < user_limit

module _ (host_tls active register user_base user_limit v : ℕ)
    (small : user_limit ≤ uint64_max) where
  -- A register is rebased to `v` exactly when these conditions hold, for a limit of 64 bits.
  pub rebase-IsRebased :
      (rebase_register_from_host_tls host_tls active register user_base user_limit ≡ some v)
      ↔ IsRebased host_tls active register user_base user_limit v
  unfolding rebase_register_from_host_tls
  rebase-IsRebased = (λ h. ground arith, λ r. ground arith)
