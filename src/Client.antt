-- ===== src/Client.antt =====
-- clients/go: the client that downloads schemas, keeps them fresh and looks messages up by class
-- names.
pub mod Refresh
pub mod Store
pub mod Resolver
pub mod Lookup
