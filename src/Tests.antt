-- ===== src/Tests.antt =====
-- Runs of the model on small inputs, and the theorems at inputs that meet their hypotheses.
mod Descriptors
mod Events
mod Conf
mod Flow
mod Memb
mod Form
mod Groups
mod Skiplists
mod DaemonsLists
mod Prot
mod Token
mod Net
