-- ===== src/Tests/Events/Orders.antt =====
-- Event building on the same buffers in two orders.
use mathlib.Core.List.{perm_append_comm}
use levbdim.Base.{ℕ, ◌≡◌, List, [], ◌∷◌, some, length, arith}
use levbdim.Buffer.{Buffer}
use levbdim.Shm.Driver.{ShmDriver, pending}
use levbdim.Shm.Scan.{collect_all}
use levbdim.Shm.Delivery.{Log, recorder}
use levbdim.Shm.Delivery.Ledger.{ledger}
use levbdim.Shm.Live.{times}
use levbdim.Shm.Order.{collect_all-perm}
use levbdim.Tests.Systems.{real}
use levbdim.Tests.Events.{block, pulled, world, driver, driver-IsSound}

abbrev other_order : List Buffer
other_order = block 2 5 ∷ block 1 5 ∷ block 1 6 ∷ []

collect_all-perm_example :
    (d₁ d₂ : ShmDriver Log) × (t₁ t₂ : ℕ) × (log₁ log₂ : Log) × (collect_all recorder real pulled
        world driver 0
      ≡ some (world, d₁, t₁))
    × (collect_all recorder real other_order world driver 0 ≡ some (world, d₂, t₂))
    × (times 5 log₁ ≡ times 5 log₂)
    × (length (pending 5 d₁) ≡ length (pending 5 d₂))
    × (ledger log₁ d₁ 5 ≡ ledger log₂ d₂ 5)
collect_all-perm_example =
    collect_all-perm real pulled other_order world [] driver 0 5 driver-IsSound
      (perm_append_comm (block 1 5 ∷ block 1 6 ∷ []) (block 2 5 ∷ [])) (λ e. omega (arith, e))
