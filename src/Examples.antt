-- ===== src/Examples.antt =====
-- Tests and instances of the theorems at concrete inputs.
mod Redis
mod Compliance
mod Dns
mod Http
mod Numbers
mod Cost
mod Report
mod Pipeline
mod Archive
