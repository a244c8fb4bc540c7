-- ===== src/Examples.antt =====
-- The theorems at concrete inputs, and tests of the definitions.
mod Servers
mod Opening
mod Publishing
mod Rpc
mod Text
mod Containers
mod Odbc
mod Facade
mod Redis
mod Web
mod Sessions
mod Files
mod Logs
mod Settings
mod Dates
mod Options
mod Dump
mod Mains
mod Http
mod Numbers
mod Talking
mod Election
