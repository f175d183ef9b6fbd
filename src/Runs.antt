-- ===== src/Runs.antt =====
-- Runs of the code on concrete input, and the instances that they take.
mod Setup
mod Frames
mod Reads
mod Sensors
mod Events
mod Polls
mod Samples
mod Rows
mod Statements
mod Summaries
mod Discoveries
