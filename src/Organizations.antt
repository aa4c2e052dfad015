-- ===== src/Organizations.antt =====
-- The organizations of auth_service: Phone (app/core/phone.py), Defs (app/models/organization.py),
-- Create, Edit and Members (app/services/organization_service.py). OwnerRows, OwnerOps and Owner are
-- about the owners, Invites and Again about the members who are called by a number.
pub mod Phone
pub mod Defs
pub mod Create
pub mod Edit
pub mod Members
pub mod OwnerRows
pub mod OwnerOps
pub mod Owner
pub mod Invites
pub mod Again
mod Examples
