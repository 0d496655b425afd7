-- ===== src/Examples.antt =====
-- Concrete runs: the theorems of the other modules applied to small inputs.
mod Udp
mod Receive
mod Control
mod Channel
mod Controls
mod Transport
mod Host
mod Tcp
mod Joined
mod Table
mod Keys
mod Injector
mod Sender
