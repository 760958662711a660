-- ===== src/Ranking.antt =====
-- The RUF protocol of the simulator: simulator/ext/rankinghost.cpp and rankingflow.cpp.
pub mod Arbiter
pub mod Flow
pub mod Comparators
pub mod Host
pub mod Sender
