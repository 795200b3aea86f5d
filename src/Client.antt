-- ===== src/Client.antt =====
-- qt_client and client: the programs that talk to the server. A QListWidget is the list of its
-- items, and a QString that came from the server is the bytes of its UTF-8 text.
pub mod Texts
pub mod Connection
pub mod Exchange
pub mod Lines
pub mod MainWindow
pub mod FriendRequests
pub mod GuestPostsWindow
pub mod MessagesWindow
pub mod Actions
pub mod LoginWindow
pub mod RegisterWindow
pub mod Dialogs
pub mod Terminal
pub mod Responses
pub mod Answers
pub mod Shown
pub mod Submitted
pub mod Cut
pub mod Served
