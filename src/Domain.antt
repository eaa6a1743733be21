-- ===== src/Domain.antt =====
-- src/pet/domain: values, entities and the authenticated principal.
pub mod Name
pub mod Models
pub mod Principal
