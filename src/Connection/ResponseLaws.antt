-- ===== src/Connection/ResponseLaws.antt =====
-- src/servers/http/http_connection.cc: the bodies of responses, in chunks or of a known length, and a
-- peer that closes within a chunk.
use tiger.Base.{List}
use tiger.Stream.Loops.{Stream}
