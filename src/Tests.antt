-- ===== src/Tests.antt =====
-- The theorems at concrete inputs, and runs of the code.
mod World
mod Metas
mod Scenario
mod Attestations
mod Transfers
mod Resolved
mod Administration
mod Histories
mod InStep
mod Registry
mod CommandLine
mod Requests
mod Whitelist
mod Sending
