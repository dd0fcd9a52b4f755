-- ===== src/Tests.antt =====
-- Runs of the modelled code on concrete inputs, and the theorems at such inputs.
mod ByteArray
mod Util
mod Http
mod Timer
mod FdManager
mod Hash
mod Pipe
mod WebSocket
mod IoManager
mod Servlet
mod Connection
mod Hook
mod Log
mod Socket
mod Coroutine
mod Scheduler
mod Session
