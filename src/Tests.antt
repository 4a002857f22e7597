-- ===== src/Tests.antt =====
-- Tests, and the properties at concrete inputs.
mod Handy
mod Url
mod Client
mod Format
mod Engines
mod NodeList
mod Answers
mod Search
mod Credits
mod Server
mod Prototype
mod Cgi
mod Fit
mod Sockets
mod Listening
