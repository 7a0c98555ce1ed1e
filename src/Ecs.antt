-- ===== src/Ecs.antt =====
-- engine/oyi_ecs: entities, component types, archetypes and the world.
pub mod EntityRegistry
pub mod ComponentMask
pub mod ComponentRegistry
pub mod ChunkLayout
pub mod Archetype
pub mod ManagedPool
pub mod Schedule
pub mod World
pub mod CommandBuffer
pub mod Replay
pub mod Query
pub mod Message
pub mod Routing
