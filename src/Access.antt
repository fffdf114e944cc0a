-- ===== src/Access.antt =====
-- server/oseye/api/auth: the sessions of jwt.py and the roles of rbac.py, over the keys of
-- storage/repositories/api_keys.py; the connections of api/ws/manager.py.
pub mod Sessions
pub mod ApiKeys
pub mod Roles
pub mod Sockets
