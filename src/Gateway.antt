-- ===== src/Gateway.antt =====
-- The Gateway process: xvector/gateway/, xvector/auth/ and xvector/api/gateway_app.py, and the
-- paths that the processes behind it serve.
pub mod Routes
pub mod RouterTable
pub mod Proxy
