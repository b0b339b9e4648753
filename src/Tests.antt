-- ===== src/Tests.antt =====
-- Runs of the model at small inputs, and the theorems at inputs that meet their hypotheses.
mod Samples
mod Servers
mod InitialMaps
mod Pages
mod Connections
mod HashMaps
mod Codecs
mod Monitors
mod Exchanges
mod Pools
mod Workers
mod Agents
mod Starters
mod Clients
mod Callers
mod Sharing
mod Lifetimes
mod Starts
