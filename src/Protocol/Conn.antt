-- ===== src/Protocol/Conn.antt =====
-- The connection to the client, as `tcpip_server_read` and `tcpip_server_write` of
-- src/lib/tcpip_server.c present it: all the bytes, or as many as there are and a failure.
use usbip_server.Prelude.{ℕ, ◌-◌, Bool, List, ◌++◌, leb, length, take, drop}

-- `input` is what the client still sends before it disconnects or the server is stopped, `room` is how
-- many bytes the connection still takes, and `output` is what it has taken so far.
pub record Conn : Type 0 where
  pub input : List ℕ
  pub room : ℕ
  pub output : List ℕ

-- `tcpip_server_read(buffer, read_size)`: the bytes that reach the buffer, and whether they are all.
unfoldable pub read : ℕ → Conn → Bool × List ℕ × Conn
read read_size c = (
  leb read_size (length c.input),
  take read_size c.input,
  record c { input = drop read_size c.input },
)

-- `tcpip_server_write(buffer, write_size)`
unfoldable pub write : List ℕ → Conn → Bool × Conn
write bytes c = (
  leb (length bytes) c.room,
  record c { room = c.room - length bytes; output = c.output ++ take c.room bytes },
)
