-- ===== src/Tests.antt =====
-- Runs of the model at concrete inputs: one application of each theorem that has hypotheses, and
-- tests of the operations on messages and texts as the repository's own tests have them.
mod Headers
mod Config
mod Network
mod Replies
mod Loop
mod Dispatch
mod State
mod Stores
mod Wire
mod Sessions
