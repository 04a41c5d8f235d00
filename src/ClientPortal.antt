-- ===== src/ClientPortal.antt =====
-- apps/client_portal: the magic links and the sessions of clients.
pub mod Links
