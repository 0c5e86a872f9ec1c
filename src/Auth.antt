-- ===== src/Auth.antt =====
-- backend/app/core/security.py, backend/app/api/auth.py and the user checks of backend/app/api/deps.py.
pub mod Limiter
pub mod Access
pub mod Locks
pub mod Bounds
pub mod Permission
