-- ===== src/Tests.antt =====
-- Runs of the functions and theorems on concrete data: Due for web/static/js/expiry.js, the others for
-- web/static/js/admin.js.
mod Due
mod Console
mod Forms
mod Queues
mod Sample
mod Channels
mod Session
