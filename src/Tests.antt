-- ===== src/Tests.antt =====
-- Witnesses: each theorem with hypotheses or parameters, applied at a concrete input.
mod Intel
mod Decisions
mod Execution
mod Working
mod Rules
mod Batches
mod Streaming
mod Enrolling
mod Accessing
mod Responding
mod Linking
mod Lookups
mod Custodies
mod Delivering
mod Storing
mod Plugging
mod Alerting
mod Grouping
mod Normalizing
mod Distributing
mod Connecting
