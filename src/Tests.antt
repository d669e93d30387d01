-- ===== src/Tests.antt =====
-- Runs of the models on concrete inputs, with a small parser in place of http_parser.
mod Toy
mod Ports
mod Tutorials
mod Messages
mod Pieces
mod Responses
mod Servers
mod Shutdowns
mod Clients
mod Daytimes
mod Chats
mod Lines
mod Loops
