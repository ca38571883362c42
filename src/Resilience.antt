-- ===== src/Resilience.antt =====
-- src/datasluice/domain/catalog/resilience.py and src/datasluice/runtime/resilience.py: time
-- budgets, retry decisions, the retry loop and the circuit breakers. Times are whole milliseconds.
pub mod Budget
pub mod Decision
pub mod Retry
pub mod Breaker
pub mod Tests
