-- ===== src/Tests.antt =====
-- Runs on small inputs, and the theorems at them.
mod Wire
mod Payloads
mod Session
mod Hub
mod Relay
mod Streams
mod Api
mod Net
mod DirectToken
mod Config
mod Node
