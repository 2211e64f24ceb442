-- ===== src/Tests.antt =====
-- Runs of the definitions at fixed inputs, and the properties at inputs where their conditions hold.
mod Fixtures
mod Rules
mod Parts
mod Pools
mod Engine
mod Handling
mod Rewrites
mod Logging
mod Searches
mod Logins
mod Lists
mod RuleFiles
mod Tables
mod Groups
