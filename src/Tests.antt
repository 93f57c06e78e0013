-- ===== src/Tests.antt =====
-- Runs of the program on a small database.
mod Samples
mod Addresses
mod Runs
mod Decisions
mod Connections
mod Web
mod Files
mod Bounces
mod Archives
mod Program
