-- ===== src/Crawl.antt =====
-- The crawl over LLDP neighbours (backend/src/netbuddy/services/crawl.py), and the site of an
-- address (backend/src/netbuddy/services/sites_net.py).
pub mod Guess
pub mod Sites
pub mod Loop
pub mod Terminates
pub mod Longest
pub mod Parallel
pub mod New
mod Tests
