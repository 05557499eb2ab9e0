-- ===== src/Lib.antt =====
-- The verification library of diskless: a boot server that gives addresses, boot files and iSCSI disks
-- to clients without a disk, with a web interface for its administrator.
--
-- The program's parts and how they meet. A client asks for an address by DHCP; src/diskless/bootd
-- answers as a standalone server with a pool of addresses, or as a proxy that adds the boot options
-- to another server's answer. The client then loads a boot file by TFTP; a file that is not static
-- is a script made for the client, which starts an iSCSI session. The web interface edits the
-- profiles, versions, clients and settings in an SQLite database, and a profile is locked while an
-- administrator edits it.
--
--   Base             what Python does with lists, bytes, texts, integers, dictionaries and exceptions
--   Dhcp.Codes, Dhcp.Request, Dhcp.Reply
--                    src/diskless/dhcp/common.py: the codes, `parse_request`, `build_reply`
--   Dhcp.Pool        `LeasePool` of src/diskless/bootd/dhcp_standalone.py
--   Dhcp.Server      `StandaloneDhcpProtocol` of the same file, and `ProxyDhcpProtocol` of
--                    src/diskless/bootd/dhcp_proxy.py
--   Tftp.Packets, Tftp.Transfer, Tftp.Server
--                    src/diskless/bootd/tftp.py: the packets, `_Transfer`, `TftpProtocol`
--   Database         the tables of src/diskless/db.py and the rows of src/diskless/models.py
--   Models           the queries of src/diskless/models.py
--   Orchestration.Lock
--                    src/diskless/orchestration/lock.py
--   Orchestration.Session, Orchestration.Lifecycle
--                    src/diskless/orchestration/session.py: the session and its names, paths and rows; its
--                    start, its end, the script that boots it, the reaper
--   Orchestration.Host
--                    what a session works on, with that file's operations on image files
--   Orchestration.PrivClient
--                    src/diskless/orchestration/priv_client.py
--   PrivHelper       src/diskless/priv_helper/server.py: requests, the whitelist, the commands;
--                    PrivHelper.Serving is `_handle` with its socket and the loop of `serve`
--   Lio              src/diskless/iscsi/lio.py
--   Machine          what they call and do not contain, as a parameter: programs, rtslib, SHA-256
--   Config           src/diskless/config.py: the record from the environment's variables, and the
--                    overrides from the database
--   Web              src/diskless/webcookie.py and src/diskless/bootd/web/__init__.py; Web.Images and
--                    Web.Updates are the handlers of image_profiles.py, Web.Clients and Web.Settings
--                    those of client_bindings.py and settings.py in the same folder, and Web.Routes
--                    is the state-changing routes together; Web.Pages is the GET handlers of these
--                    files and of dashboard.py, with `render_template`
--   Web.Cookie, Web.Login
--                    the session cookie of webcookie.py with `require_auth`; bootd/web/auth.py, and
--                    `create_admin` of src/diskless/cli/create_admin.py
--   Monitor          src/diskless/bootd/websocket.py, with `poll_and_broadcast` of bootd/main.py
--   Daemon           src/diskless/bootd/main.py: what the start decides, and the events after it;
--                    src/diskless/bootd/systemd_sockets.py; `_resolve_payload` of tftp.py
--   Tests            the theorems on concrete packets, clients and databases
--
-- The proofs stand below what they are about: Dhcp.Request.Options, Dhcp.Reply.Layout and
-- Dhcp.Reply.RoundTrip, Dhcp.Pool.Invariant and Dhcp.Pool.Expiry, the modules below Dhcp.Server,
-- Tftp.Transfer and Tftp.Server, Lio.Removal, PrivHelper.Whitelist, the modules below Orchestration.Lock,
-- Orchestration.PrivClient and Orchestration.Lifecycle, Daemon.Pairing, Web.Pairing,
-- Web.Images.References, Web.Clients.Booting, Web.Settings.Effect, Web.Login.Granting, Monitor.Broadcast,
-- and the modules Pairing, Sharing, Losing, Offering and Newest below Web's parts.
--
-- How state and effects are written. A method is a function from its object to the object after it; where
-- it can raise, the result is `ok` or `raise`, and what had changed before the exception stays
-- changed. A byte is a number below 256, and a text is the list of the bytes of its encoding. The
-- clock of the pool is a function from the number of the reading to its value, so that two readings
-- of one call can differ. The delayed calls of the TFTP server are a dictionary by call, the requests
-- that a worker thread resolves are a queue, and one event of the reactor is one step; the
-- client that Tftp.Server.Network puts on the other side of it is RFC 1350's. The database
-- is a record of lists of rows, and a handler runs on it, on the image files by path, and on the
-- administrators' sessions that the process holds. A session works on the database, the files and the
-- machine; the steps of one start, end or round of the reaper are taken together. Nothing is assumed of
-- the machine but where a theorem says so, as the one on `remove_lun`, which takes a record of what
-- rtslib does.
--
-- Fuel. The loop over the options of a packet has as much fuel as the packet has bytes, of which each
-- round eats one at least. A download has two rounds more than the file has bytes, which is enough for
-- blocks of one byte. Both say `out_of_fuel` where they stop early, and both are shown not to. A lossy
-- download has 65536 rounds, as many as two bytes have numbers, and is shown to be over by then.
--
-- Parameters. `Machine` stands for programs, rtslib and SHA-256, `Signer` for itsdangerous' serializer,
-- `Bcrypt` for bcrypt; the random token of a form, a salt and the time are given with each call.
--
-- Not modelled. The text of the templates (a page is the template's name with its
-- arguments), how sockets are made, the frames and the JSON
-- text of the WebSocket and the parsing of the command line are other programs' work. A message to
-- the privileged helper is its JSON value, read whole. Image directories exist and their files can be
-- written: a full disk is not modelled. The reactor's ports are left out. A call in a worker thread is one
-- event, with no other inside of it. A TFTP worker's payload is given with the event that delivers
-- it, and the workers' results come in the order of the requests. A row of `active_session` that has
-- an overlay but no snapshot or no base device, which the program does not write, is refused at once. Ids of
-- profiles are any numbers: SQLite's error for those from 2^63 on is left out. The number of an error
-- page is kept, its text is not.
pub mod Base
pub mod Dhcp
pub mod Tftp
pub mod Database
pub mod Models
pub mod Orchestration
pub mod Web
pub mod Config
pub mod Machine
pub mod PrivHelper
pub mod Lio
mod Tests
pub mod Daemon
pub mod Monitor
