-- ===== src/Tests.antt =====
-- Concrete inputs for the theorems.
mod Stream
mod Task
mod Pool
mod Delivery
mod Server
mod Login
mod Errors
mod Thread
mod Epoll
mod Text
mod Service
mod Client
