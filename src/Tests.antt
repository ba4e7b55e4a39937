-- ===== src/Tests.antt =====
-- Runs of the model on concrete inputs: tests, and for each theorem of the results an instance at
-- an input where its hypotheses hold.
mod Fixtures
mod Caching
mod Reading
mod Flying
mod Tallying
mod Copying
mod Filing
mod Freshening
mod Proxying
mod Leading
mod Streams
mod Crowd
mod Starting
mod Racing
