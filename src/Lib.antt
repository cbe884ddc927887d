-- ===== src/Lib.antt =====
-- ClipCascade: clipboards shared between devices through a server (server/) and desktop clients
-- (desktop/), with shared packages (pkg/).
--
-- The library's modules follow the program's parts:
--     * Prelude: shared names, tests, lists, Go's int64 (Prelude.Int64) and the equality of map
--     keys (Prelude.Eq); GoMap: Go's built-in map.
--     * History: desktop/history/history.go. State has the item states and `validTransitions`,
--     Item the `HistoryItem`, Manager the state of `Manager` with `AddItem` and the eviction,
--     Updates the other methods. Ids, Order and Eviction have the lemmas, Valid the invariant,
--     Adds, Changes and Routes what the methods do.
--     * Server.Limits: server/handler/ws_limits.go and `EffectiveMaxMessageBytes` of
--     server/config/config.go.
--     * Server.BruteForce: server/middleware/bruteforce.go.
--     * Server.Hub: server/handler/ws_hub.go. The methods of `WSHub` and the loop of a connection
--     are in Hub, the connections that are open and their steps in Sessions; Registry has the
--     lemmas on the maps, Replies those on the frames, Sound the invariant, Delivery what is
--     written to whom. The hub encodes and parses the frames of Protocol.Stomp.
--     * Server.Signaling: server/handler/p2p_signaling.go; Routing has which peers a signal
--     reaches.
--     * Protocol.Stomp: pkg/protocol/stomp.go over the functions of Go's `strings` in
--     Protocol.Text. A text is a list of code points, so the bytes of a message are taken to be
--     valid UTF-8.
--     * App: desktop/app. Shared has shared_clipboard.go, Receive receive_history.go; Received
--     and Latest what a reception does to the history of module History.
--     * Clipboard: desktop/clipboard/monitor.go. Capture has what a read of the clipboard gives,
--     Changes the state and `handleChange`, Writes the methods that write, Watch the loops;
--     Contents has what a capture contains; Echo, Selection and Reports what the methods and the
--     loops do.
--     * Transport.Fragments: the sending and the receiving of messages in
--     desktop/transport/p2p_client.go. Utf8 has what JSON makes of the bytes, Cut and Pieces the
--     fragments of a message, Filling the entry while they come in, Reassembly, Others and
--     Sending what arrives and what is sent.
--     * Files: desktop/app/file_transfer.go. Paths has the names that are made safe and Go's
--     `path` functions, Extract the extraction of a zip archive, Transfer the transfers,
--     Preparing, Outgoing and Sending what is sent, Requesting the request for an archive,
--     Receiving the chunks that come in, Handlers the handlers of the messages for them. Their
--     child modules have the proofs: Receiving.Refined relates the storage in memory or on the
--     disk to the bytes received so far, Sending.Delivered a sending to what is received, by
--     Sending.Arrival for any receiver that takes chunks one by one, and Handlers.Sent a sending
--     to the completed transfer.
--     * Crypto: pkg/crypto/aes_gcm.go.
--     * Server.Accounts: server/handler/auth.go, server/handler/admin.go and
--     server/model/user.go. `LoginPost` is over the interface `Database`; Login has what it
--     answers. Requests has each handler that changes users as a program of calls of the
--     database, Steps any number of them at the same time, call by call, with queries that give
--     anything and writes that may fail; Safe has the writes that a handler may make, Roles what
--     holds of every account.
--     * Protocol.Summary: pkg/protocol/clipboard_summary.go.
--     * Tests: concrete runs.
--
-- A method that changes its receiver returns the new state. A method that runs under its
-- structure's lock is one step; where the code releases the lock in between, as
-- `MutateByTransferID` does, the state is passed twice, and `Check` and `RecordFailure` of the
-- login protection are separate steps. The handlers of the accounts hold no lock and are taken
-- call by call. `prepareOutgoingArchive` holds only the `prepareMu` of its transfer: it is one
-- function of the transfer, taken without a cleanup or a release in between. Times are numbers of
-- nanoseconds, 0 standing for Go's zero time, and the current time is an argument. Go's int and
-- int64 are integers; a product wraps around at 64 bits where the code multiplies. Counters that
-- a program cannot bring to overflow are unbounded.
--
-- The methods of desktop/app and of the clipboard's manager take their locks several times; they
-- are modelled without steps of others in between.
--
-- The eviction loop runs on fuel, the length of the list, which is enough since every round
-- removes an item. So does the loop that sends chunks, on the number of bytes left, since a round
-- takes at least one.
--
-- A disk is a map from paths to contents. What the file system answers to an operation (a
-- directory that is made, a write that fails) is an argument, also the space that is left and
-- what a reader of a zip entry gives.
--
-- Not modelled: input and output (HTTP, websockets, the system clipboard, logging), the windows
-- and the hotkeys, the mobile clients, and the libraries used.
pub mod Prelude
pub mod GoMap
pub mod App
pub mod Clipboard
pub mod Crypto
pub mod Files
pub mod History
pub mod Protocol
pub mod Server
pub mod Transport
pub mod Tests
