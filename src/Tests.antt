-- ===== src/Tests.antt =====
-- Runs of the operations, and each theorem at an input that meets its hypotheses.
mod Samples
mod Histories
mod Worlds
mod ServerRuns
mod ClientRuns
mod RepeatedPush
mod ClientPorts
mod BridgeRuns
mod DurableRuns
mod CryptoRuns
mod RelayRuns
mod JoinRuns
mod SealRuns
mod StreamRuns
mod StartRuns
mod BinaryRuns
