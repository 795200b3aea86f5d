-- ===== src/Lib.antt =====
-- A text-based social network: one server process in C++ that keeps its data in SQLite, and the
-- clients that talk to it over TCP. The development models the server, the connection and the windows
-- of the Qt client as far as they speak to the server, and the client on a terminal.
--
-- Parts and their files:
--   * server/server.cpp (`main`): Server. The state is the 30 client slots, the set of watched
--     descriptors, the shared state of the commands and what was sent. `round` is one round of the
--     loop over select: `accept_client`, then `serve_slot` for each slot, which trims the line,
--     makes the command and executes it, or disconnects the client. Server/Reach has the states
--     that the loop reaches, Server/WellFormed what the tables hold in them, and Server/Slots which
--     sockets have a session. CommandFactory/Spelling, Commands/Named and
--     Database/Named follow the names of users from a line into the table, Commands/Registered and
--     Database/Registered the references to users.
--   * server/CommandFactory.cpp (`CommandFactory::create`): CommandFactory, with `dispatch` for the
--     chain of tests and one `create_...` for each branch. Stream is the std::stringstream that it
--     reads from, with eofbit and failbit; Decimal is std::to_string.
--   * server/commands/*.h: Command, one constructor for each subclass.
--   * server/commands/*.cpp (`execute`): Commands, with Commands/Account, Commands/Friendship,
--     Commands/Posting and Commands/Messaging, one `execute_...` for each class.
--   * server/SessionManager.cpp: SessionManager, one function for each method.
--   * server/Database.h and server/Database.cpp: Database/Tables has the tables, Database what each
--     SQL statement does (`perform`) and how it is run; Database/Users, Database/Friends, Database/Posts and Database/Messages have
--     one function for each method of the class.
--     Database/Friends/Graph is the abstract view of the friendships, Database/Typed the ranges of
--     the columns, Database/Integrity and Database/Numbered the keys.
--   * server/Logger.cpp: Logger, with what the loop of server/server.cpp logs for a request.
--   * qt_client/NetworkClient.cpp: Client/Connection, one function for each method. Client/Exchange puts
--     it together with the server: how many bytes each read of the server and each recv of the client
--     takes is a parameter (`Wire`), up to the sizes of the buffers. Client/Cut has posts that do not
--     fit into one read.
--   * qt_client/*Window.cpp and the dialogs: Client/Actions has the line that each handler sends and
--     Client/Actions/Meaning the command that it stands for. What a window makes of a response is in
--     Client/LoginWindow, Client/RegisterWindow, Client/Dialogs (AddFriend, FriendType, CreatePost),
--     Client/MainWindow, Client/FriendRequests, Client/GuestPostsWindow and Client/MessagesWindow,
--     under the names of the methods. Client/Texts and Client/Lines have std::string::find, the
--     loop over std::getline, and QString::split.
--     Client/Submitted, Client/Shown and Client/Served put the windows, the connection and the server
--     together, Client/Answers and Client/Responses what the server answers and that it is delivered.
--   * client/client.cpp: Client/Terminal, the loop as rounds over what read returns.
--   * Access relates sessions and participants; Examples has the tests.
--   * Common has the shared helpers: Boolean tests, lists, texts as lists of bytes, and integers.
--
-- How they interact: `round` passes a line to `create`, and the command to `execute`, which reads and
-- changes `App`, the pair of the singletons `Database` and `SessionManager`. A method of `Database`
-- builds a statement with its bound values (`Sql`) and runs it with `exec` or `query`.
--
-- SQLite is a parameter, `Engine`: for each statement and state of the tables it says whether prepare
-- and step fail, which of the selected rows are delivered and in which order, and what the clock
-- shows. Within one command the same statement on the same tables has one answer. `IsSound`: what is
-- delivered was selected. `IsReliable`: no error happens during the command, and all of it is
-- delivered. Theorems name the one they need. Foreign keys are declared in the schema, but SQLite
-- does not enforce them unless a connection asks for it, and the server does not.
-- std::hash is a parameter too (`hasher`), and so is what an uninitialised int holds.
--
-- A window sends a line with `send_command`; `respond` is what the server makes of it; the response goes
-- back to the window. A QString is taken as its bytes in UTF-8, a list of widgets as the list of what
-- they show, and QString::trimmed is a parameter, of which `IsTrimming` says what Qt documents.
--
-- Bounds and fuel: `digits` has fuel above the number itself, `read_users` above the length of the
-- rest of the line, `serve_slots` counts the 30 slots. A value that the code stores into an `int` from
-- 64 bits keeps its low 32 bits (`to_int`), and `operator>>` clamps to 32 bits (`clamp`). The loop
-- of the server takes reads of any length. Between a client and the server a read has at most 1023
-- bytes (`line_size`) and a recv at most 2047 (`buffer_size`); `whole` is a line that one read takes
-- whole, and theorems that need it have the bound as a hypothesis. The terminal reads lines of at
-- most 1023 bytes (`message_size`).
--
-- Not modelled: opening the listening socket, the mutexes (one thread serves all clients), the SQLite
-- file, and what the commands write to the log. Of the Qt client the widgets, layouts and styles, the
-- timers that repeat an action, and which window opens which, but for login and registration. Where
-- send passes on only a part of a command, `exchange` still lets the server read its whole line.
pub mod Common
pub mod Decimal
pub mod Database
pub mod Stream
pub mod SessionManager
pub mod Command
pub mod CommandFactory
pub mod App
pub mod Commands
pub mod Access
pub mod Server
pub mod Logger
pub mod Client
pub mod Examples
