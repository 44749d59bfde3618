-- ===== src/Suite.antt =====
-- The unit tests of the repository (the folders ut), each as a function to `Bool`: whether all its
-- checks hold. A subcase is a function of what the code before it has made.
pub mod Storages
pub mod Managers
pub mod Routers
pub mod Serialization
pub mod Servers
mod Tests
