-- ===== src/Tests.antt =====
-- Runs of the definitions on concrete inputs, and the theorems at such inputs.
mod Gregorian
mod Birthdays
mod Rules
mod Queues
mod Syncs
mod Previews
mod Signed
mod Handlers
mod Uploads
mod Registry
mod Entry
mod Members
