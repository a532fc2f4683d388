-- ===== src/Tests.antt =====
-- Concrete systems and histories, and each theorem with conditions applied to one of them.
mod Samples
mod Ranges
mod Networks
mod Access
mod Selection
mod Changes
mod Requests
mod Marks
mod Tables
mod Parsing
mod Routing
mod Client
mod Firewall
mod Lockdown
