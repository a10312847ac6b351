-- ===== src/Lib.antt =====
-- The verification library of sambervise, a GTK program that administers the users, groups and
-- computers of an Active Directory domain over LDAP (paths are from the repository's root).
--
-- The program's core is src/backend: each operation runs on a worker thread that takes the one
-- shared LDAP handle under a mutex, makes its calls, releases the mutex, and gives its task a value
-- or an error. src/model holds the records of what is listed; src/ui starts the operations.
--
-- How it is modelled:
-- - Ldap: libldap, as the calls that reach the directory, and a `Library` that answers each call
--   from the log of all calls made before it. It is a parameter: any directory, and any failure, is
--   covered. So are `g_utf8_validate`, `g_convert` to UTF-16 and `g_array_sort`.
-- - Connection (src/backend/sbv-connection.c): the state of `SbvConnection` with its mutex, the log
--   of calls, and programs over them. A program ends with a value, an error, waiting for ever on
--   the mutex (`blocked`), or undefined behaviour of C. `connect_thread`, `whoami_thread` and
--   `sbv_connection_disconnect` are `connect`, `whoami` and `disconnect`.
-- - Backend: the lines that the backends share (reading a value, checking a result code).
-- - Users, Groups, Computers, Contacts (src/backend/sbv-users-backend.c, sbv-groups-backend.c,
--   sbv-computers-backend.c, sbv-contacts-backend.c, src/model): listing, creating, deleting,
--   enabling, the password and its policy, names, members, POSIX attributes, service principal names.
--   A definition stands for an `_async` function with its thread; the source's name is in the comment
--   above it.
-- - Collisions (src/backend/sbv-collisions.c): who uses an id, and the scan for a free one.
-- - Idmap, Suggest (src/backend/sbv-idmap-hints.c, and the Suggest buttons of
--   src/ui/sbv-users-panel.c and src/ui/sbv-groups-panel.c): the ranges and hints of ids.
-- - Probe (src/backend/sbv-probe.c): the probe of a controller, on a handle of its own.
-- - Profile, Profiles (src/model/sbv-profile.c, src/backend/sbv-profiles.c): the stored profiles.
--   GLib's GKeyFile is a parameter, with laws on its documented behaviour.
-- - Browse (src/backend/sbv-ldap-browse.c): the children, the attributes and the search of the
--   directory browser, and the modification of any entry.
-- - Editor (src/ui/sbv-ldap-panel.c): the rows of the attributes of an entry, from the texts that
--   `rebuild_attr_rows` makes to the modifications that `on_save_clicked` sends.
-- - Dns (src/backend/sbv-dns.c): the controllers of a domain; the resolver is a parameter.
-- - Panel (src/ui/sbv-users-panel.c): the panel of the users as a state, its handlers as functions
--   that give the next state and the asynchronous calls that they start, and `Step`, one handler or
--   one reply. Replies come in any order, with any result. An `SbvUser` and a connection are
--   numbers, as pointers are, so a user that a row and a call in flight share is one user. How the
--   backend makes a reply is in Users and Collisions.
-- - GroupPanel (src/ui/sbv-groups-panel.c): the panel of the groups in the same way. Here the contexts
--   of buttons and dialogs are objects too, and a handler that uses one that was freed gives `none`.
-- - ComputerPanel with SpnEditor (src/ui/sbv-computers-panel.c), ContactPanel
--   (src/ui/sbv-contacts-panel.c): the panels of the computers, with the editor of service principal
--   names, and of the contacts, whose addresses are lines of a text.
-- - LdapPanel (src/ui/sbv-ldap-panel.c): the panel around Editor, with its tree, its search and the
--   attributes that are read again after a save.
-- - Filter: the search entries of these panels and of the dialog that adds a member.
-- - CreateDialog (src/ui/sbv-create-user-dialog.c, sbv-create-contact-dialog.c,
--   sbv-create-group-dialog.c, sbv-create-computer-dialog.c): the full name that is filled in, the
--   checks, and the arguments that go to the backends.
-- - Window (src/ui/sbv-window.c, src/ui/sbv-password-dialog.c, and the connect of
--   src/ui/sbv-connect-dialog.c): which connection and profile the main window has. A connection is a
--   number with a count of references, so `g_object_ref`, `g_object_unref`, `g_set_object`,
--   `g_clear_object` and the reference of each task are steps of the model.
-- - ConnectDialog (src/ui/sbv-connect-dialog.c): the form of a profile, its checks, the stored
--   profiles after it is saved, the guess at the local domain, and the probe with the rows that are
--   shown of it; /etc/resolv.conf and the host's name are arguments.
-- - Session: all operations on the shared connection in one type, and the worlds they lead to: `Runs`
--   for all of them, and `Reaches` for those that do not run into the two defects that `IsAllowed`
--   leaves out, POSIX attributes without a handle and a change of names on a NULL DN.
-- - Base: bytes, numbers, decimal text and flags as C has them. Tests: concrete instances.
--
-- Bounds and fuel: `scan` runs on fuel, one more than the number of ids in use, since each round but
-- the last uses up one of them; that it is enough is proved. userAccountControl is a 64-bit two's
-- complement number; ids are integers without a bound, so a range that ends at the greatest gint64,
-- where `candidate++` would overflow, is not told apart. Texts are lists of bytes, NULL is `none`.
--
-- Not modelled: the construction of the widgets, the lists of raw attributes, the labels that are
-- only read, the spinners, the end of the windows and of the application, and packaging. The
-- windows' rules (a modal dialog, a button that is not sensitive) are in `CanHappen`. Memory
-- management, but for what GroupPanel, LdapPanel, CreateDialog, ConnectDialog and Window say, and
-- cancellation are left out. Operations run one after another: the mutex makes a worker thread's
-- section of calls exclusive, and interleavings outside of it are not part of the model.
-- The text format and the writing of the key file are GLib's.
pub mod Base
pub mod Ldap
pub mod Profile
pub mod Connection
pub mod Backend
pub mod Users
pub mod Groups
pub mod Computers
pub mod Contacts
pub mod Browse
pub mod Editor
pub mod Dns
pub mod Panel
pub mod GroupPanel
pub mod ContactPanel
pub mod Filter
pub mod CreateDialog
pub mod ComputerPanel
pub mod LdapPanel
pub mod ConnectDialog
pub mod SpnEditor
pub mod Collisions
pub mod Idmap
pub mod Suggest
pub mod Probe
pub mod Profiles
pub mod Window
pub mod Session
pub mod Tests
