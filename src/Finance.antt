-- ===== src/Finance.antt =====
-- finance: money, the dates of recurring expenses, and totals.
pub mod Money
pub mod Recurring
pub mod Models
pub mod Service
pub mod Analytics
pub mod Categories
pub mod Dates
pub mod Books
pub mod Imports
pub mod Entry
pub mod Reports
pub mod Periods
pub mod Tests
