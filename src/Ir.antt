-- ===== src/Ir.antt =====
-- src/ir: the intermediate representation.
pub mod Values
pub mod Attributes
pub mod Context
pub mod Modules
pub mod SsaNames
pub mod Types
pub mod BlockBuilder
pub mod Storages
pub mod IrToProto
pub mod Proto
pub mod ProtoToIr
