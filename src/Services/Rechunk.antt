-- ===== src/Services/Rechunk.antt =====
-- RechunkSvc (internal/app/rechunk.go): the chunks of every document of a collection made anew.
mod Order
pub mod Pages
mod Page
pub mod Selected
pub mod Ends
pub mod Report
