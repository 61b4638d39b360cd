-- ===== src/Lib.antt =====
-- A verification library for freekill-asio, the server of a card game.
--
-- The server accepts sockets, reads packets of CBOR items from them, and keeps users, rooms and a
-- lobby in its main thread. Games run in Lua threads, which the main thread tells what happens and
-- which call back. Each user has objects (`ServerPlayer`), known by a connection id; an object is in
-- the lobby or in a room, and a room belongs to a Lua thread.
--
-- Which file models which part:
--   Base        helpers: tests, lists, machine integers, maps as association lists
--   Task        src/server/task/task.cpp and task_manager.cpp: tasks, their ids and reference counts,
--               the three indexes of the task manager
--   Util        src/core/util.cpp: hexadecimal text, the frame around zlib, the hash of a file with
--               its line ends made equal; checkString of src/core/c-wrapper.cpp
--   Network     src/network/client_socket.cpp: the packet builder, the read buffer and
--               the sending queue (Sender);
--               src/network/router.cpp: requests and the replies to them
--   Server      src/server: World is the state that the managers share, Users the maps of
--               user/user_manager.cpp, Room, Leave and Game the operations of room/room.cpp with what they
--               call of user/serverplayer.cpp, Abandon the end of a room, Threads the thread choice of
--               server.cpp and gamelogic/roomthread.cpp, Lobby room/lobby.cpp and room_manager.cpp,
--               Settings the settings of a room,
--               Connection how a connection ends and comes back (user/serverplayer.cpp),
--               Refresh what a new hash of the server's files does (server.cpp),
--               Auth what a connection must show to become a user (user/auth.cpp, with what it calls of
--               server.cpp and user/user_manager.cpp),
--               Packets how a packet of a user finds its handler, with the chat, the account and the list
--               of rooms (room/lobby.cpp, room/roombase.cpp, handlePacket of room/room.cpp),
--               Rates the rates of players and generals (room/room.cpp),
--               TempBans the temporary bans (server.cpp),
--               Heartbeat how users who do not answer are kicked (server.cpp),
--               Shell the commands of the shell (admin/shell.cpp),
--               Admin what the administration is shown and its HTTP service (admin/admin_service.cpp and
--               admin/admin_http.cpp);
--               Sound says when the maps of the server are in order, and its children, with those named
--               Kept of Packets and Shell, that the operations keep them so; Steps is the step relation
--               of the whole server
--   Rpc         the calls between the server and its Lua processes: Packet is
--               src/server/rpc-lua/jsonrpc.cpp; Encode, Builder and Read what rpc-lua.cpp writes and
--               reads; Dispatch the methods of src/server/gamelogic/rpc-dispatchers.cpp, one function
--               for each, over the world of Server; Ordered and InOrder are about what they keep
-- An operation of the source is a function of the same name in this spelling (`removePlayer` of
-- `Room` is `room_remove_player`, that of `Lobby` is `lobby_remove_player`, as one file uses both). An
-- operation takes the objects as they stand in the world and returns the world after it; where the
-- source looks an object up again after a call that changed it, so does the model.
--
-- Conventions. A map is an association list; the order in which an unordered_map is walked is that
-- of the list, so that the theorems hold for every order. Ids are integers; user ids are positive
-- and those of robots negative. What leaves the component (a packet, a call of a Lua thread, a
-- posted function, a timer) is appended to a list of events, and a posted function is an operation
-- of its own. A packet's content is left out of a notification, as are the game timer, the IP and
-- device warnings, and the player's record that is read from the data base (the event
-- `update_game_data`).
--
-- Parameters: the CBOR decoder of libcbor, zlib, MD5, the map of a room's settings (loaded by
-- libcbor), the word filter and the configured room count; for the calls of Lua libcbor's encoders,
-- and how json writes a player, a task or a room; for a login the data base, RSA, SHA-256, the
-- library that compares versions, the salt and the time; the time that a player's game timer shows;
-- the words of a line, `std::stol` and `std::stoll`, and the bytes of a text; for a
-- kick, which users have nothing left to be sent.
-- What is assumed of a decoder or of zlib stands in the hypotheses of the theorems that use it.
--
-- Fuel. The loops of the two read buffers take as fuel one more than the bytes of the buffer; each
-- round that goes on reads at least one byte, and a theorem for each shows that the loop ends
-- before the fuel does.
--
-- Steps. The main thread runs one handler at a time; a step is a whole handler: a packet of a user who
-- is in the maps, a login, a line of the shell, a request of Lua or of HTTP, the end of a connection, a
-- timer, or a function that was posted. Objects and rooms that the last kinds are about may be any. The
-- shell has a thread of its own in the source, which the model lets take its turn like the others. A
-- kick in a heartbeat, in a refresh and in a temporary ban ends the connection at once where nothing
-- waits to be sent; any other is the event `kicked`, and the end of the connection a step of its own.
--
-- Not modelled: sockets, the event loop and true concurrency; the data base itself, of which the
-- statements and what is read from results are modelled; the methods by which Lua sets win rates; Lua;
-- the package manager with its commands of the shell; what the shell only prints, the
-- completion of its words and the reading of the configuration; JSON, and the limits of a request of
-- HTTP; the making of the RSA keys; the start and the end of a Lua process. A shared pointer's
-- destructor runs when the last one goes: the model runs that of a player at the end of a connection
-- and in the checks of an abandoned room and of the lobby, and leaves that of a room to the event
-- `room_removed`.
pub mod Base
pub mod Task
pub mod Util
pub mod Network
pub mod Server
pub mod Rpc
