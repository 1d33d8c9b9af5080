-- ===== src/Tests.antt =====
-- Runs of the model at concrete inputs, a file for each part of the page's code in assets/js.
mod Requests
mod Timing
mod Redrawing
mod Objects
mod Posts
mod Replies
mod Controls
mod Tables
mod Pages
mod Sessions
mod Trees
mod Cameras
mod Listening
mod Classes
mod Sockets
mod Submits
mod Exchanges
mod Redraws
mod Names
mod Courses
