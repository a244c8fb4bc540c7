-- ===== src/Tools.antt =====
-- The tools module: text, containers and adapters.
pub mod Decimal
pub mod Json
pub mod Split
pub mod UrlEncode
pub mod MarkValue
pub mod MapExpires
pub mod Step
pub mod Odbc
pub mod RedisClient
pub mod ConfigAgent
pub mod Dates
pub mod FormatTime
pub mod Header
pub mod RedisFacade
pub mod SystemUtils
pub mod JsonUtils
pub mod ProgramOptions
pub mod Logger
pub mod HttpRequest
pub mod Number
