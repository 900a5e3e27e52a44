-- ===== src/Engine/Connection/Follows.antt =====
-- internal/engine/conn.go and event.go: the states that a pass reports follow the documented order.
use mink_lasso.Base.{◌≡◌, ◌⊎◌, false, some}
use mink_lasso.Masso.Reply.{Identity}
use mink_lasso.Client.State.{UdpAddr}
use mink_lasso.Engine.Gate.{Gate}
use mink_lasso.Engine.Connection.{Engine}

-- What a pass leaves behind.
pub record Left (before after : Engine) : Type 0 where
  pub same_serial : after.serial ≡ before.serial
  pub gate_closed : before.gate.is_connected ≡ false → after.gate.is_connected ≡ false
  pub address_right :
      (after.last_addr ≡ before.last_addr)
      ⊎ ((addr : UdpAddr) × (id : Identity) × (after.last_addr ≡ some addr)
          × (id.serial ≡ before.serial))
