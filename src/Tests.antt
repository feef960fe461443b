-- ===== src/Tests.antt =====
-- The theorems at concrete inputs, and runs of the model on the scripted platform and on a file.
mod Registry
mod Proxy
mod Wire
mod Ini
mod Main
mod Traces
mod Errors
mod Progress
