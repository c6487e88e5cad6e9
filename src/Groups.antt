-- ===== src/Groups.antt =====
-- The workspaces of the gateway: services/conversation_slot_service.py,
-- services/group_member_service.py and services/group_registry.py over one database. Its session
-- and its schema are not modelled: a query reads the tables, and a commit is the new tables.
pub mod Slots
pub mod Members
pub mod Registry
pub mod Bindings
mod Tests
