-- ===== src/Lib.antt =====
-- A model of the core of OyiEngine, an entity-component engine in C++, and theorems on it.
--
-- The parts modelled, from the bottom up:
--   Core/Handle           engine/oyi_core/include/oyi_core/Handle.h: generational handles.
--   Core/LinearAllocator  engine/oyi_core/src/oyi_core/LinearAllocator.cpp: blocks of one buffer.
--   Core/TaggedHeap       engine/oyi_core/src/oyi_core/TaggedHeap.cpp: blocks under tags, over a
--                         backing allocator.
--   Core/FrameAllocator   engine/oyi_core/src/oyi_core/FrameAllocator.cpp: the cursor in a block.
--   Prelude/Outcome       engine/oyi_core/include/oyi_core/Expected.h: results and error codes.
--   Ecs/EntityRegistry    engine/oyi_ecs/src/oyi_ecs/EntityRegistry.cpp: entity handles, their
--                         generations, the free list and the location of each live entity.
--   Ecs/ComponentMask     engine/oyi_ecs/include/oyi_ecs/ComponentMask.h: sets of component types.
--   Ecs/Archetype         engine/oyi_ecs/src/oyi_ecs/Archetype.cpp: packed chunks of rows.
--   Ecs/ComponentRegistry engine/oyi_ecs/src/oyi_ecs/ComponentRegistry.cpp: component types.
--   Ecs/ChunkLayout       engine/oyi_ecs/src/oyi_ecs/ChunkLayout.cpp: the bytes of a chunk.
--   Ecs/World             engine/oyi_ecs/src/oyi_ecs/World.cpp: entities, marks and components, over
--                         the registry, the layouts and the archetypes; component moves are in
--                         Ecs/World/Components.
--   Ecs/ManagedPool       engine/oyi_ecs/src/oyi_ecs/Managed.cpp: the pool of managed objects.
--   Ecs/CommandBuffer     engine/oyi_ecs/src/oyi_ecs/CommandBuffer.cpp: recorded commands.
--   Ecs/Replay            ReplayCommands and SyncPoint of World.cpp, and CloneEntity of
--                         Serialization.cpp, over the world, the pool and the command buffers.
--   Ecs/Schedule          engine/oyi_ecs/src/oyi_ecs/Schedule.cpp: the registration of systems; Sort
--                         and Build, which derive their order, in files of these names.
--   Ecs/Query             engine/oyi_ecs/src/oyi_ecs/Query.cpp: the archetypes that a system visits.
--   Ecs/Message           engine/oyi_ecs/src/oyi_ecs/Message.cpp: outboxes and inboxes.
--   Ecs/Routing           RouteOutbox of Schedule.cpp, from the outboxes to the inboxes.
--   Rpc/Framing           engine/oyi_rpc/src/oyi_rpc/Framing.cpp, and RpcServer::Poll of a
--                         connected client in engine/oyi_rpc/src/oyi_rpc/Server.cpp, where Dispatch
--                         is an argument.
--   Net/NetworkIdMap      engine/oyi_net/src/oyi_net/NetworkId.cpp: network ids of entities.
--   Net/Prediction        engine/oyi_net/src/oyi_net/Prediction.cpp and its header: rings of the
--                         last ticks' inputs and captures.
-- The file of a part holds its state as a record and a function per operation, named as in the
-- source; the files in its folder hold the invariant, the theorems and the tests. Prelude holds
-- the numbers, lists and results that all parts share.
--
-- Unsigned integers of 32 and 64 bits are natural numbers with the wrap-around written out. An
-- operation that can fail returns `Expected`; what the source excludes by an assertion or by a precondition
-- of a container is `none`. Memory that a vector cannot get terminates the program and is left out.
-- An allocator is an argument that grants memory or does not.
-- The search for a chunk capacity recurses on the capacity, which counts down. The loop of Poll in
-- Rpc/Framing runs on fuel: each round takes at least four bytes out of the buffer, so that the
-- length of the buffer is enough. The loop of Ecs/Schedule/Sort runs on fuel too: each round places a
-- system, so that the number of systems is enough. Reserve of Core/TaggedHeap runs on fuel as
-- well: each round adds a free block, so that the number of blocks asked for is enough.
--
-- Not modelled: the operating system (engine/oyi_platform, sockets), the generated flatbuffers
-- code, floating-point code (engine/oyi_physics, engine/oyi_transform) and the bindings of the
-- script machine (engine/oyi_script). Of the engine's own logic, the running of a schedule's phases,
-- snapshots, world files, replication and jobs have no model here.
pub mod Prelude
pub mod Core
pub mod Ecs
pub mod Rpc
pub mod Net
