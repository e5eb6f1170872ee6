-- ===== src/Auth.antt =====
-- The auth server, src/auth_server/auth_service_impl.cpp, with the messages of protos/auth.proto.
pub mod Account
pub mod Login
