-- ===== src/Lib.antt =====
-- The Game Server: an authoritative server of a game of cells, in C++ over Boost.Asio.
--
-- Parts and how they interact. A `Session` (src/Session.cpp) carries the packets of a client; the
-- `Application` gives them to a `Room` (src/Room.cpp). A room owns cells (src/entity) and players
-- (src/Player.cpp), numbers its cells by a pool (src/NextId.cpp), finds which cells meet by a map cut into
-- sectors (src/Gridmap.cpp), and tells its sessions what happened by packets (src/OutgoingPacket.cpp) in
-- the byte order of src/serialization.hpp. Cells report their deaths, motions and changes of mass by
-- events, which the room handles one after the other.
--
-- Which file models what:
--   NextId            src/NextId.hpp, src/NextId.cpp: `push`, `pop`.
--   Wire              src/serialization.hpp: `serialize`, `deserialize` for numbers, strings and floats.
--   OutgoingPacket    src/OutgoingPacket.cpp: one function per serializer. Decoding is a client's reader.
--   Geometry          src/geometry: vectors, boxes, circles and their tests.
--   Config            src/Config.hpp: the configuration of a room.
--   Transport         src/Session.cpp: the send queue, `doSend`, `doWrite`, `onWrite`, `doClose`, `onClose`.
--   Entity            src/entity/Cell.hpp: the state of a cell; a class of cells is a kind. Mass, motion and
--                     `format` of src/entity/Cell.cpp (Motion), and a client's reader of a cell (Format).
--   Player            src/Player.hpp: the state of a player, and the order of src/Player.cpp.
--   Gridmap           src/Gridmap.cpp: the map (Gridmap), `insert`, `update`, `erase` (Cells), `query`,
--                     `count` (Search).
--   Registries        src/Room.cpp: the creation of cells (Registries), the handlers of their events and
--                     `synchronize` (Events), `resolveCellPosition` and the activation of new cells
--                     (Activation).
--   Standings         src/Room.cpp: the leaderboard and the fighters, with the dead that `synchronize` erases.
--   Audience          src/Room.cpp, `doJoin` to `doChatMessage`, with the sessions of src/Player.cpp and the
--                     data of a session of src/Session.hpp: the pointers and the sending (Audience), the
--                     requests (Requests).
--   Dispatch          src/Application.cpp: the loop of `sessionMessageHandler` and what its actions read.
--   World             What cells and players share: the room's registries, its sessions and players, the
--                     timers of a player, the handlers posted to the two contexts of src/EventEmitter.hpp.
--   Entity/Avatars    src/entity/Avatar.cpp: what an avatar has beyond a cell.
--   Interaction       src/entity: the effect of each pair of classes (Pairs), the double dispatch and the
--                     handler of the query in `Room::update` (Dispatch).
--   Contexts          src/Room.cpp: `m_gameContext.run()` and `m_deathContext.run()` with the handlers of
--                     the cells' events, and the explosion of src/entity/Mother.cpp.
--   Updates           src/Room.cpp: `update` with `handlePlayerRequests`, and `synchronize`; `recombine` of
--                     src/Player.cpp.
--   Lives             src/Player.cpp: respawn, avatars, death (Lives), `split` and `eject` (Orders),
--                     deflation, annihilation and explosion (Ageing), `doPlay` of src/Room.cpp (Playing).
--   Spawning          src/Room.cpp: `getRandomPosition` (with what it gives in Places), the generators,
--                     `killExpiredCells`, and the count of food near the mothers (Nearby).
--   Bots              src/Bot.cpp: respawn, pursuit and the choice of a target.
--   Users             src/User.cpp, src/UsersCache.cpp: the cache of users over a database.
--   Timers            src/Timer.cpp, src/EventEmitter.hpp, and the timers of a room.
--   Rooms             src/RoomManager.cpp: `start`, `stop`, `obtain`, `size`.
--   Base, Counting    What the others share: tests, lists, integers, options, the arithmetic of floats.
--   Tests             The theorems at concrete inputs.
--
-- Conventions. A pointer is a number, memory a function from numbers. An exception, an assertion
-- that fails, and what is undefined in the language, is `none`; but where the explosions divide by a
-- mass of the configuration, it is taken to be positive. The assertions on the corners of a circle
-- that moves on the map are left out. `float` and `double` are a parameter `F` with the operations
-- of Base/Float; what a theorem needs of them is a named hypothesis, and Base/Fixed is an arithmetic
-- in which the hypotheses hold. Sets are lists without repetition, so that an order of iteration
-- stands for the order of addresses. Loops are structural recursion on the list that they go
-- through, but for three. The fuel of the loop over messages is enough when it is the length of the
-- buffer. The fuel of the game's context is the weight of its handlers: a mother that explodes posts
-- as many changes of mass as it has parts, which are too light to explode. The fuel of the creation
-- of a user is the number of tokens tried, and what is out of fuel is `none`. `M_PI`, `sin`, `cos`,
-- the clock, the allocator and the random numbers are the parameter `Host` of World; the database of
-- users is a parameter of Users. Whether the users give a user to a greeting is a parameter of
-- Dispatch. Handlers are total steps on a state, and interleavings are lists of events or the
-- relation `Reaches`. The bounds: a room's width and height are from 1 to 2 ^ 24, where `float` is
-- exact; a pool hands out fewer than 2 ^ 32 numbers.
--
-- Not modelled. The network, threads and the database (src/Listener.cpp, src/IOThreadPool.cpp,
-- src/HttpClient.cpp, src/MySQLConnectionPool.cpp) are calls of libraries. The actions of
-- src/Application.cpp after they have read their message, `synchronize` of src/Player.cpp with its
-- packets, `createBots` and `recalculateFreeSpace` of src/Room.cpp, the timers of src/Bot.cpp,
-- `save` of src/UsersCache.cpp and the reading of src/Config.cpp are not part of this library yet.
pub mod Base
pub mod Counting
pub mod NextId
pub mod Wire
pub mod World
pub mod Interaction
pub mod Lives
pub mod Contexts
pub mod Updates
pub mod Bots
pub mod Rooms
pub mod Timers
pub mod Spawning
pub mod Users
pub mod Geometry
pub mod Config
pub mod Player
pub mod OutgoingPacket
pub mod Transport
pub mod Entity
pub mod Gridmap
pub mod Registries
pub mod Standings
pub mod Audience
pub mod Dispatch
pub mod Tests
