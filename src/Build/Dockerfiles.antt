-- ===== src/Build/Dockerfiles.antt =====
-- The generators of Dockerfiles (deploypro/domain/dockerfiles.py).
pub mod Stages
pub mod Static
pub mod Servers
