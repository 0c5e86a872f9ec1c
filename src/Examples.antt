-- ===== src/Examples.antt =====
-- Concrete inputs of the program's parts, and the theorems at them.
mod Data
mod Engines
mod Cases
mod Trails
mod Reviews
mod Desk
mod Logins
mod Requests
mod Reports
mod Learning
mod Replies
mod Ingested
mod Ablated
