-- ===== src/Tests.antt =====
-- Concrete runs of the modelled code.
mod Registry
mod Gateway
mod Guest
mod Server
mod Vm
mod Machines
mod Cli
mod Host
mod Node
