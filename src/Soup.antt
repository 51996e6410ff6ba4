-- ===== src/Soup.antt =====
-- src/soup/soup.hpp and src/soup/soup.cpp, SoupBinTCP: `Frames` has the packets and their parser,
-- `Login` the login request, `Session` the server's side of a session.
pub mod Frames
pub mod Login
pub mod Session
