-- ===== src/Rpc.antt =====
-- simple_io/sio_rpc.c and sio_rpc.h: remote calls over byte streams. `Parse` is the loop that cuts
-- the input of a connection into messages, which client and server share word for word.
-- `Client` is the client's connections, `Server` the server's connections and its answers.
pub mod Parse
pub mod Client
pub mod Server
pub mod Tests
