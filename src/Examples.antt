-- ===== src/Examples.antt =====
-- Runs on small tables: the data, and one application of each theorem.
mod Data
mod Composing
mod Publishing
mod Confirming
mod Reviewing
mod Queueing
mod Limiting
mod Recurring
mod Membership
mod Keys
mod Serving
mod Answering
