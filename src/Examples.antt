-- ===== src/Examples.antt =====
-- Concrete runs of the models: the crates and channels filled with small ones, and the theorems
-- applied to them.
mod Wire
mod Serial
mod Messages
mod Nodes
mod Cores
mod Stores
mod Pairing
mod Directory
mod Lobbies
mod Transfers
mod Incomings
mod CoreFrames
mod Handshakes
mod Shells
mod Shares
mod Vaults
mod Devices
mod Calls
