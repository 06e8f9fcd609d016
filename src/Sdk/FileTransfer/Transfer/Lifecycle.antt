-- ===== src/Sdk/FileTransfer/Transfer/Lifecycle.antt =====
-- `===` on states is equality.
use rtcforge.Prelude.{true, ◌≡◌, arith, ◌↔◌}
use rtcforge.Sdk.FileTransfer.Transfer.{TransferState, same_state}

pub same_state_iff : (a b : TransferState) → (same_state a b ≡ true) ↔ (a ≡ b)
same_state_iff a b = ground arith
