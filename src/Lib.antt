-- ===== src/Lib.antt =====
-- Verification library of FamFun, a private video service in Go: one public cloud server
-- (internal/cloud) and home servers (internal/home) that keep the videos and connect to the cloud over
-- QUIC. A home registers with a signature over two challenges, announces its videos, and answers requests
-- that the cloud sends over data streams, one stream for each request. The cloud keeps a registry of
-- homes and their videos, caches stream segments, and serves both to its users by role.
--
-- Prelude        lists, dictionaries, texts and sorting; Go's results with errors and panics as values
--                (Prelude/Results), and actions that read and change a state (Prelude/Exec).
-- Model          internal/model/video.go: Video, VideoToProto, ProtoToVideo.
-- Protocol       Message: the Go types of pkg/proto/famfun.pb.go. Stream: a QUIC stream as bytes written
--                and a peer that answers them. Framing: internal/protocol/framing.go (WriteMessage,
--                ReadMessage). RegisterAuth: internal/protocol/register_auth.go.
-- Cloud          Cache: internal/cloud/cache.go, with Cache/Index and Cache/Valid for its invariant,
--                Cache/Recent for the abstract cache and Cache/Refines for the two together.
--                HomeManager: internal/cloud/home_manager.go. Comments and Stats:
--                internal/cloud/videodb.go. Users: internal/cloud/userdb.go. HomeKeys:
--                internal/cloud/homekeydb.go and verifyRegisterRequest. QuicServer:
--                performRegistration, syncVideos and the control messages of
--                internal/cloud/quic_server.go, with QuicServer/Control for handleConnection and
--                controlLoop. DataRequest and StreamProxy: internal/cloud/stream_proxy.go. Access:
--                the roles and checkVideoAccess. Tokens: the session tokens and authMiddleware of
--                internal/cloud/auth.go. Server: internal/cloud/server.go, the handlers in
--                Server/Videos, Server/Accounts and Server/Homes, setupRoutes in Server/Routes, and in
--                Server/Steps the changes that requests can make, as a step relation. Avatar:
--                internal/cloud/avatar.go. Start: cmd/cloud/main.go, with Start/Bootstrap and
--                Start/Restart for the accounts that it makes.
-- Home           FilePath: path/filepath as far as it is used, with FilePath/Below and FilePath/Up for
--                paths with plain names and with two dots. Disk: whole files. Scanner:
--                internal/home/scanner.go, the walk in Scanner/Walk. Server:
--                internal/home/server.go, with Server/Upload for HandleUploadVideo
--                (Upload/Naming and Upload/Keeping for the files it makes), Server/Dispatch for
--                the data streams of internal/home/quic_client.go, and Server/EndToEnd and
--                Server/EditEndToEnd for both servers together. Connecting: ConnectWithRetry of
--                that file. Client: its Connect, and the registration, with Client/Welcome for
--                both servers, Client/Reading for controlReadLoop and Client/Accepting for
--                acceptDataStreams. Running: Run and the processing of videos of
--                internal/home/server.go, with Running/Announcing and Running/Beating (the
--                heartbeats) for both servers, and Running/Keeping for the map of videos. Start:
--                cmd/home/main.go. Converting: internal/home/converter.go and
--                internal/home/thumbnail.go.
-- Tests          the theorems at concrete inputs.
--
-- Function names are the source's in lower case with underscores (GetSegment is get_segment). A method
-- that changes its receiver takes the state and returns the new one. A method under a lock is one
-- step. A Go map is a list of pairs in the order of one possible iteration. `panic` is a run-time
-- panic. The protobuf library, the cryptography, bcrypt, the JWT library, encoding/json, ffprobe,
-- ffmpeg, SHA-256, QUIC and the writes of the operating system are arguments; what is asked of them
-- stands in IsCodec, IsJson, IsKeyPair and IsJwt.
--
-- Fuel: the eviction loop has as much fuel as the list has elements, and each round removes one.
-- first_free, the search for a file name, has one more than the files on the disk, and its
-- candidates all differ. The control loop of a connection takes a message in each round; where the
-- other side closes its stream, one round more than the bytes that it sends is enough. All other
-- loops are recursions on lists. Byte counts and sizes are taken to stay below 2 ^ 63; the sum of
-- offset and limit of a page wraps at 2 ^ 64, the length of a frame and the number of a chunk at
-- 2 ^ 32.
--
-- Not modelled: gin with its parsing of requests, the listeners and the goroutines they start,
-- other goroutines that change a home's client while its control loop runs, reads that block
-- because the other side sends nothing and does not close its stream (a stream of the model ends
-- behind what the other side has sent), failures of os.Stat other than that there is no file,
-- signals, TLS, the splitting of the command line, the heartbeat timer itself, the web client, the
-- reflection code of the generated messages, and errors of the database itself. Requests follow one
-- another: each is one step on the shared state.
pub mod Prelude
pub mod Model
pub mod Protocol
pub mod Cloud
pub mod Home
pub mod Tests
