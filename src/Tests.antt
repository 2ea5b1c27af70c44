-- ===== src/Tests.antt =====
-- Runs at concrete inputs, and each theorem of the results at an input that exercises the code.
mod Utils
mod Capture
mod Client
mod Manager
mod Sim
mod Dispatch
mod Loop
mod Analyzer
mod Commands
mod Compare
